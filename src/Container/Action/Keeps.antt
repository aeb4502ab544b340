-- ===== src/Container/Action/Keeps.antt =====
-- What the calls of backend/internal/core/service keep of the database, whichever of them fail.
use docker_cloud_manager.Prelude.{ℕ, Option-cases, inl, inr}
use docker_cloud_manager.AppErrors.{Err}
use docker_cloud_manager.Result.{Result, ok, err}
use docker_cloud_manager.Container.{Db}
use docker_cloud_manager.Container.Queue.Steps.{commit}
use docker_cloud_manager.Container.Action.{
  Env, World, Action, on, go_on, transact, query, docker, settle, counted_db, DockerCall,
}

-- Any property of databases.
module _ (env : Env) (P : Db → Type 0) where
  -- A call that keeps it, and what follows on either of its results.
  pub on-keeps :
      {T U : Type 0} (call : Action T) (failed : Err → Action U) (next : T → Action U) (w : World)
      → P (call w).1.db
      → ((e : Err) (w' : World) → P w'.db → P (failed e w').1.db)
      → ((v : T) (w' : World) → P w'.db → P (next v w').1.db)
      → P (on call failed next w).1.db
  on-keeps {T} call failed next w h bad good = go (call w) h
    where
      go : (r : Result T × World) → P r.1.db → P (go_on failed next r).1.db
      go (err e, w') there = bad e w' there
      go (ok v, w') there = good v w' there

  pub query-keeps :
      {T : Type 0} (read : Db → Result T) (w : World) → P w.db → P (query env read w).1.db
  unfolding query
  query-keeps read w h = elim (Option-cases (env.db_fault w.db_calls)) [
    | inl p ↦ rw (p, query) h
    | inr (e, p) ↦ rw (p, query) h
  ]

  pub docker-keeps :
      {T : Type 0} (call : DockerCall) (answer : ℕ → T) (w : World)
      → P w.db
      → P (docker env call answer w).1.db
  unfolding docker
  docker-keeps call answer w h = elim (Option-cases (env.docker_fault w.docker_calls)) [
    | inl p ↦ rw (p, docker) h
    | inr (e, p) ↦ rw (p, docker) h
  ]

  settle-keeps :
      {T : Type 0} (r : Result (T × Db)) (w : World)
      → P (commit r w.db)
      → P (settle (counted_db w) r).1.db
  settle-keeps (err e) w h = h
  settle-keeps (ok r) w h = h

  -- A transaction that keeps it where the connection stands.
  pub transact-keeps :
      {T : Type 0} (transaction : Db → Result (T × Db)) (w : World)
      → P (commit (transaction w.db) w.db)
      → P w.db
      → P (transact env transaction w).1.db
  unfolding transact
  transact-keeps transaction w committed h = elim (Option-cases (env.db_fault w.db_calls)) [
    | inl p ↦ rw (p, transact) (settle-keeps (transaction w.db) w committed)
    | inr (e, p) ↦ rw (p, transact) h
  ]

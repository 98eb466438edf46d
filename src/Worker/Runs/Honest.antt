-- ===== src/Worker/Runs/Honest.antt =====
-- What a worker says and runs in all its sessions (cmd/worker/main.go).
use money_miner.Base.{ℕ, ◌≡◌, Bool, true, false, List, [], ◌∷◌, All, if-both}
use money_miner.Engine.{Engine, Files}
use money_miner.Worker.{FileConfig, Session, next_backoff}
use money_miner.Worker.Jobs.{AreReal, handle_inbound-AreReal}
use money_miner.Worker.Runs.{
  Machine, Happening, arrives, ticks, Attempt, not_dialled, not_greeted, lasts, Past, happen,
  follow, attempt, run_sessions, cmd_run,
}
use money_miner.Worker.Runs.Spoken.{IsAbout, Keeps, is_assigned, is_assigned-IsCovered, each-Keeps}

-- The jobs that a session is assigned.
abbrev jobs_of : Attempt → ℕ → Bool
jobs_of not_dialled = λ job. false
jobs_of not_greeted = λ job. false
jobs_of (lasts hs) = is_assigned hs

-- A session of a worker as it has to be.
abbrev IsHonest : Attempt → Past → Type 0
IsHonest a p = AreReal p.session × All (IsAbout (jobs_of a)) p.session.sent

-- Each attempt has its session.
abbrev pub AreHonest : List Attempt → List Past → Type 0
AreHonest [] [] = Unit
AreHonest (a ∷ rest) (p ∷ ps) = IsHonest a p × AreHonest rest ps
AreHonest [] (p ∷ ps) = true ≡ false
AreHonest (a ∷ rest) [] = true ≡ false

module _ (cfg : FileConfig) (files : Files) (spawns : Engine → Bool) (mc : Machine) where
  happen-AreReal :
      (h : Happening) (s : Session)
      → cfg.allow_simulated ≡ false
      → AreReal s
      → AreReal (happen cfg files spawns mc h s)
  unfolding happen
  happen-AreReal (arrives m) s never a = handle_inbound-AreReal cfg files spawns m s never a
  happen-AreReal (ticks stats) s never a = a

  -- What every happening of a session keeps holds at its end.
  follow-keeps :
      (P : Session → Type 0) (hs : List Happening) (s : Session)
      → All (λ h. (t : Session) → P t → P (happen cfg files spawns mc h t)) hs
      → P s
      → P (follow cfg files spawns mc hs s)
  unfolding follow
  follow-keeps P [] s each a = a
  follow-keeps P (h ∷ hs) s (one, each) a =
      let t = happen cfg files spawns mc h s in
      if-both P s.over s (follow cfg files spawns mc hs t) a (follow-keeps P hs t each (one s a))

  each-AreReal :
      (hs : List Happening)
      → cfg.allow_simulated ≡ false
      → All (λ h. (t : Session) → AreReal t → AreReal (happen cfg files spawns mc h t)) hs
  each-AreReal [] never = tt
  each-AreReal (h ∷ hs) never = (λ t a. happen-AreReal h t never a, each-AreReal hs never)

  attempt-AreReal :
      (a : Attempt) → cfg.allow_simulated ≡ false → AreReal (attempt cfg files spawns mc a [])
  unfolding attempt
  attempt-AreReal not_dialled never = (tt, tt)
  attempt-AreReal not_greeted never = (tt, tt)
  attempt-AreReal (lasts hs) never = follow-keeps AreReal hs _ (each-AreReal hs never) (tt, tt)

  attempt-IsAbout :
      (a : Attempt) → All (IsAbout (jobs_of a)) (attempt cfg files spawns mc a []).sent
  unfolding attempt
  attempt-IsAbout not_dialled = tt
  attempt-IsAbout not_greeted = tt
  attempt-IsAbout (lasts hs) =
      (follow-keeps (Keeps (is_assigned hs)) hs _
        (each-Keeps cfg files spawns mc (is_assigned hs) hs (is_assigned-IsCovered hs))
        (tt, (tt, tt))).1

  sessions-AreHonest :
      (backoff : ℕ) (attempts : List Attempt)
      → cfg.allow_simulated ≡ false
      → AreHonest attempts (run_sessions cfg files spawns mc attempts [] backoff)
  unfolding run_sessions
  sessions-AreHonest backoff [] never = tt
  sessions-AreHonest backoff (a ∷ rest) never = (
    (attempt-AreReal a never, attempt-IsAbout a),
    sessions-AreHonest (next_backoff backoff) rest never,
  )

  -- A worker whose configuration does not allow the simulated engine is honest in all its sessions,
  -- however they go and whatever the server sends: no engine that a session has at its end, or has
  -- lost to another assignment of the same job, is a simulated one; and each session acknowledges and
  -- reports only jobs that the server assigned in it.
  pub cmd_run-AreHonest :
      (attempts : List Attempt)
      → cfg.allow_simulated ≡ false
      → AreHonest attempts (cmd_run cfg files spawns mc attempts)
  unfolding cmd_run
  cmd_run-AreHonest attempts never = sessions-AreHonest 1 attempts never

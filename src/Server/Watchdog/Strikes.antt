-- ===== src/Server/Watchdog/Strikes.antt =====
-- When the watchdog restarts the worker.
use pg_resp.Prelude.{
  ℕ, suc, ◌+◌, ◌<◌, ◌≡◌, ◌∙◌, arith, ◌||◌, Bool, true, false, Option, List, [], ◌∷◌, Bytes, leb,
  Bool-cases, inl, inr,
}
use pg_resp.Client.{Client, disconnect, World, Texts, Outcome, ok, err}
use pg_resp.Client.Commands.{probe, Call}
use pg_resp.Server.Watchdog.{
  Watch, Watched, watching, restarting, watch_once, watch, go_on, first_watch, probed,
  watchdog_strikes,
}

-- What a wakeup finds: the server thread gone, or a probe that is answered or not.
pub data Sign : Type 0 where
  gone answered silent : Sign

abbrev sign_of : Bool → Outcome Unit → Sign
sign_of true o = gone
sign_of false (ok u) = answered
sign_of false (err e) = silent

abbrev kept : Outcome Unit → Client → Client
kept (ok u) cl = cl
kept (err e) cl = disconnect cl

-- The signs of a worker that is watched to the end.
unfoldable pub signs : Texts → List Bool → Client → World → List Sign
signs x [] cl w = []
signs x (server_died ∷ later) cl w =
    let (cl', w', o) = probe x cl w in sign_of server_died o ∷ signs x later (kept o cl') w'

abbrev silences : List Sign → ℕ
silences [] = 0
silences (silent ∷ ss) = suc (silences ss)
silences (answered ∷ ss) = 0
silences (gone ∷ ss) = 0

abbrev is_gone : Sign → Bool
is_gone gone = true
is_gone answered = false
is_gone silent = false

-- The thread is gone at some wakeup, or three probes in a row are not answered.
abbrev pub condemned : List Sign → Bool
condemned [] = false
condemned (s ∷ ss) = is_gone s || (leb 3 (silences (s ∷ ss)) || condemned ss)

abbrev pub is_restarting : Watched → Bool
is_restarting (watching v w) = false
is_restarting (restarting reason) = true

abbrev watched : Client → ℕ → Watch
watched cl strikes = record { probe = cl; strikes = strikes }

condemned_streak : (ss : List Sign) → (leb 3 (0 + silences ss) || condemned ss) ≡ condemned ss
condemned_streak [] = ground arith
condemned_streak (gone ∷ ss) = ground arith
condemned_streak (answered ∷ ss) = ground arith
condemned_streak (silent ∷ ss) = ground arith

abbrev Foretells : ℕ → List Sign → Watched → Type 0
Foretells strikes ss v = is_restarting v ≡ (leb 3 (strikes + silences ss) || condemned ss)

abbrev probed_signs : (Client → World → List Sign) → Call Unit → List Sign
probed_signs rest (cl, w, o) = sign_of false o ∷ rest (kept o cl) w

probed-Foretells :
    (next : Watch → World → Watched) (rest : Client → World → List Sign) (strikes : ℕ)
    (r : Call Unit)
    → strikes < 3
    → ((cl : Client) (k : ℕ) (w : World) → k < 3 → Foretells k (rest cl w) (next (watched cl k) w))
    → Foretells strikes (probed_signs rest r) (go_on next (probed strikes r))
probed-Foretells next rest strikes (cl, w, ok u) h ih =
    let later = ih cl 0 w (omega arith) in later ∙ condemned_streak (rest cl w) ∙ ground arith
probed-Foretells next rest strikes (cl, w, err e) h ih =
    elim (Bool-cases (leb watchdog_strikes (suc strikes))) [
      | inl many ↦ rw many (ground arith)
      | inr few ↦
          let room : suc strikes < 3 = ground arith in
          let later = ih (disconnect cl) (suc strikes) w room in rw few (ground (arith, later))
    ]

watch-from :
    (x : Texts) (deaths : List Bool) (cl : Client) (strikes : ℕ) (w : World)
    → strikes < 3
    → Foretells strikes (signs x deaths cl w) (watch x deaths (watched cl strikes) w)
unfolding watch watch_once signs
watch-from x [] cl strikes w h = ground arith
watch-from x (true ∷ later) cl strikes w h = ground arith
watch-from x (false ∷ later) cl strikes w h =
    probed-Foretells (watch x later) (signs x later) strikes (probe x cl w) h
      (λ cl' k w' few. watch-from x later cl' k w' few)

-- The watchdog restarts the worker exactly when the server thread is found gone or three probes in a
-- row are not answered, whatever the probes before them found.
pub watch_iff :
    (x : Texts) (deaths : List Bool) (target : Bytes × Option Bytes) (w : World)
    → is_restarting (watch x deaths (first_watch target) w)
      ≡ condemned (signs x deaths (first_watch target).probe w)
watch_iff x deaths target w =
    watch-from x deaths (first_watch target).probe 0 w (omega arith)
    ∙ condemned_streak (signs x deaths (first_watch target).probe w)

-- ===== src/Worker/Listening.antt =====
-- What the control listener does with what happens to it (axontask-worker/src/control.rs).
use axon_task.Prelude.{
  ◌≡◌, refl, Text, Bool, true, false, ◌||◌, none, some, List, [], ◌∷◌, ◌++◌, inl, inr, ap, any,
  Result, ok, err,
}
use axon_task.Prelude.Results.{Result-cases}
use axon_task.Worker.Control.{
  ControlCommand, ControlMessage, cancel, Incident, message, stream_ended, second,
  canceled_elsewhere, listen_loop, waiting, checked, on_command,
}

abbrev pub is_end : Incident → Bool
is_end stream_ended = true
is_end _ = false

-- The incidents before the stream ends.
abbrev pub before_end : List Incident → List Incident
before_end [] = []
before_end (stream_ended ∷ incidents) = []
before_end (message m ∷ incidents) = message m ∷ before_end incidents
before_end (second ∷ incidents) = second ∷ before_end incidents
before_end (canceled_elsewhere ∷ incidents) = canceled_elsewhere ∷ before_end incidents

commanded : (c : ControlCommand) → on_command c ≡ (true, true)
commanded cancel = refl

module _ (from_str : Text → Result Text ControlMessage) where
  abbrev pub is_command : Result Text ControlMessage → Bool
  is_command (ok m) = true
  is_command (err e) = false

  -- A cancellation, by a message that can be parsed or by others.
  abbrev pub cancels : Incident → Bool
  cancels (message (some payload)) = is_command (from_str payload)
  cancels (message none) = false
  cancels stream_ended = false
  cancels second = false
  cancels canceled_elsewhere = true

  waiting_canceled : (incidents : List Incident) → (waiting from_str true incidents).0 ≡ true
  unfolding waiting
  waiting_canceled [] = refl
  waiting_canceled (message none ∷ incidents) = refl
  waiting_canceled (message (some payload) ∷ incidents) = elim (Result-cases (from_str payload)) [
    | inl (m, e) ↦ rw e (ap (λ (p : Bool × Bool). p.0) (commanded m.command))
    | inr (m, e) ↦ rw e refl
  ]
  waiting_canceled (stream_ended ∷ incidents) = refl
  waiting_canceled (second ∷ incidents) = refl
  waiting_canceled (canceled_elsewhere ∷ incidents) = waiting_canceled incidents

  waiting_lem :
      (incidents : List Incident)
      → ((waiting from_str false incidents).0 ≡ any cancels (before_end incidents))
  unfolding waiting
  waiting_lem [] = refl
  waiting_lem (message none ∷ incidents) = waiting_lem incidents
  waiting_lem (message (some payload) ∷ incidents) = elim (Result-cases (from_str payload)) [
    | inl (m, e) ↦ rw e (ap (λ (p : Bool × Bool). p.0) (commanded m.command))
    | inr (m, e) ↦ rw e (waiting_lem incidents)
  ]
  waiting_lem (stream_ended ∷ incidents) = refl
  waiting_lem (second ∷ incidents) = waiting_lem incidents
  waiting_lem (canceled_elsewhere ∷ incidents) = waiting_canceled incidents

  a_check_later :
      (token : Bool) (incidents : List Incident)
      → (waiting from_str token (incidents ++ (second ∷ []))).1
        ≡ (waiting from_str token incidents).0 || any is_end incidents
      → (checked token (waiting from_str token (incidents ++ (second ∷ [])))).1
        ≡ (checked token (waiting from_str token incidents)).0 || any is_end incidents
  a_check_later true incidents h = refl
  a_check_later false incidents h = h

  -- A second later.
  a_second_later :
      (token : Bool) (incidents : List Incident)
      → (waiting from_str token (incidents ++ (second ∷ []))).1
        ≡ (waiting from_str token incidents).0 || any is_end incidents
  unfolding waiting
  a_second_later true [] = refl
  a_second_later false [] = refl
  a_second_later true (message none ∷ incidents) = refl
  a_second_later false (message none ∷ incidents) = a_second_later false incidents
  a_second_later token (message (some payload) ∷ incidents) =
      elim (Result-cases (from_str payload)) [
        | inl (m, e) ↦ rw (e, commanded m.command) refl
        | inr (m, e) ↦ rw e (a_check_later token incidents (a_second_later token incidents))
      ]
  a_second_later true (stream_ended ∷ incidents) = refl
  a_second_later false (stream_ended ∷ incidents) = refl
  a_second_later true (second ∷ incidents) = refl
  a_second_later false (second ∷ incidents) = a_second_later false incidents
  a_second_later token (canceled_elsewhere ∷ incidents) = a_second_later true incidents

  -- The listener leaves the token of its task cancelled exactly if it was cancelled before, or before the stream of
  -- messages ends others cancel it or a message comes that can be parsed; other messages change nothing. A second
  -- later the listener has stopped exactly if the token is cancelled or the stream has ended.
  pub listen_loop_lem :
      (token : Bool) (incidents : List Incident)
      → ((listen_loop from_str token incidents).0 ≡ token || any cancels (before_end incidents))
        × ((listen_loop from_str token (incidents ++ (second ∷ []))).1
            ≡ (listen_loop from_str token incidents).0 || any is_end incidents)
  unfolding listen_loop
  listen_loop_lem true incidents = (refl, refl)
  listen_loop_lem false incidents = (waiting_lem incidents, a_second_later false incidents)

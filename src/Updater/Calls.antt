-- ===== src/Updater/Calls.antt =====
-- The methods of the updater that other goroutines call: each sends a request to `routine` and
-- waits for the answer on a channel that it has made.
use pnf.Base.{ℕ, Bool, true, false, Option, none, some, List, [], ◌∷◌, if◌then◌else◌, ◌==◌}
use pnf.Base.Outcome.{Outcome, ok, ◌>>=◌}
use pnf.Updater.{Updater, Message, broadcast, bootstrap, respond, info_response, close_broadcast}
use pnf.Updater.Requests.{handle_request, handle_info_request}

module _ {G E : Type 0} where
  -- what comes on a channel of a request, if anything does
  unfoldable pub response_in : ℕ → List (Message G E) → Option (Option G × ℕ)
  response_in channel [] = none
  response_in channel (respond c game frame ∷ ms) =
      if c == channel then some (game, frame) else response_in channel ms
  response_in channel (broadcast b ∷ ms) = response_in channel ms
  response_in channel (bootstrap b ∷ ms) = response_in channel ms
  response_in channel (info_response n ∷ ms) = response_in channel ms
  response_in channel (close_broadcast ∷ ms) = response_in channel ms

  -- what comes on `info_response`
  unfoldable pub count_in : List (Message G E) → Option ℕ
  count_in [] = none
  count_in (info_response n ∷ ms) = some n
  count_in (respond c game frame ∷ ms) = count_in ms
  count_in (broadcast b ∷ ms) = count_in ms
  count_in (bootstrap b ∷ ms) = count_in ms
  count_in (close_broadcast ∷ ms) = count_in ms

  -- The updater after it has taken the request, and the answer that it sends at once; without one
  -- the caller waits on.
  unfoldable pub request_game_state :
      Bool → ℕ → ℕ → Updater G E → Outcome (Updater G E × Option (Option G × ℕ))
  request_game_state final frame channel u = do
    done ← handle_request u (record { frame = frame; response = channel; final = final })
    ok (done.0, response_in channel done.1)

  unfoldable pub request_final_game_state :
      ℕ → ℕ → Updater G E → Outcome (Updater G E × Option (Option G × ℕ))
  unfolding request_game_state response_in
  request_final_game_state frame channel u = request_game_state true frame channel u

  unfoldable pub request_fast_game_state :
      ℕ → ℕ → Updater G E → Outcome (Updater G E × Option (Option G × ℕ))
  unfolding request_game_state response_in
  request_fast_game_state frame channel u = request_game_state false frame channel u

  unfoldable pub num_engines : Updater G E → Outcome (Updater G E × Option ℕ)
  unfolding count_in
  num_engines u = do done ← handle_info_request u; ok (done.0, count_in done.1)

-- ===== src/Updater/Requests.antt =====
-- `fulfillFinalRequests`, `fulfillFastRequests` and the requests of `Updater.routine`.
pub mod Fulfil
use pnf.Base.{
  ℕ, zero, suc, ◌+◌, Bool, true, false, ◌||◌, Option, none, some, List, [], ◌∷◌, ◌++◌, length,
  get_elem?, ltb, ◌==◌, if◌then◌else◌,
}
use pnf.Base.Slices.{swap_remove}
use pnf.Base.Words.{lt32, le32}
use pnf.Base.Outcome.{Outcome, ok, diverges, ◌>>=◌}
use pnf.DataWindow.{DataWindow, get, start}
use pnf.Base.GoMap.{entries}
use pnf.Game.{FrameData}
use pnf.Updater.{Updater, StateRequest, Message, respond, info_response}

abbrev pub Answers : Type 0 → Type 0 → Type 0
Answers G E = List StateRequest × List (Message G E)

module _ {G E : Type 0} where
  -- The loop that both functions run, from index `i` on: it answers each request for `target` that
  -- it meets and removes it. It makes at most as many rounds as there are requests.
  unfoldable pub fulfil_from :
      DataWindow (FrameData G E) → ℕ → ℕ → ℕ → List StateRequest → Outcome (Answers G E)
  fulfil_from w target zero i requests = diverges
  fulfil_from w target (suc rounds) i requests = elim (get_elem? requests i) [
    | none ↦ ok (requests, [])
    | some r ↦ elim (r.frame == target) [
      | true ↦ do
        data' ← get w target
        rest ← fulfil_from w target rounds (i + 1) (swap_remove requests i)
        ok (rest.0, respond r.response data'.game target ∷ rest.1)
      | false ↦ fulfil_from w target rounds (i + 1) requests
    ]
  ]

  unfoldable pub fulfil : DataWindow (FrameData G E) → ℕ → List StateRequest → Outcome (Answers G E)
  fulfil w target requests = fulfil_from w target (suc (length requests)) 0 requests

  unfoldable pub fulfil_final_requests : Updater G E → Outcome (Updater G E × List (Message G E))
  fulfil_final_requests u = fulfil u.data_window (start u.data_window) u.final_requests >>= λ a.
      ok (record u { final_requests = a.0 }, a.1)

  unfoldable pub fulfil_fast_requests : Updater G E → Outcome (Updater G E × List (Message G E))
  fulfil_fast_requests u = fulfil u.data_window u.local_frame u.fast_requests >>= λ a.
      ok (record u { fast_requests = a.0 }, a.1)

  -- the case `req := <-u.request_state` of `routine`
  unfoldable pub final_request :
      Updater G E → StateRequest → Outcome (Updater G E × List (Message G E))
  final_request u req =
      let first = start u.data_window in
      if lt32 req.frame 0 || req.frame == first
      then (do data' ← get u.data_window first; ok (u, respond req.response data'.game first ∷ []))
      else if lt32 req.frame first
      then ok (u, respond req.response none 0 ∷ [])
      else ok (record u { final_requests = u.final_requests ++ (req ∷ []) }, [])

  unfoldable pub fast_request :
      Updater G E → StateRequest → Outcome (Updater G E × List (Message G E))
  fast_request u req =
      if lt32 req.frame 0
      then (do
        data' ← get u.data_window u.local_frame
        ok (u, respond req.response data'.game u.local_frame ∷ []))
      else if lt32 req.frame (start u.data_window)
      then ok (u, respond req.response none 0 ∷ [])
      else if le32 req.frame u.local_frame
      then (do
        data' ← get u.data_window req.frame
        ok (u, respond req.response data'.game req.frame ∷ []))
      else ok (record u { fast_requests = u.fast_requests ++ (req ∷ []) }, [])

  unfoldable pub handle_request :
      Updater G E → StateRequest → Outcome (Updater G E × List (Message G E))
  unfolding final_request fast_request
  handle_request u req = if req.final then final_request u req else fast_request u req

  -- the case `<-u.info_request`: how many engines take part
  unfoldable pub handle_info_request : Updater G E → Outcome (Updater G E × List (Message G E))
  handle_info_request u = do
    data' ← get u.data_window (start u.data_window)
    ok (u, info_response (length (entries data'.info.engines)) ∷ [])

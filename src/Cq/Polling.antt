-- ===== src/Cq/Polling.antt =====
-- `CQ::poll_wc` and `CQ::get_event` (src/types/cq.rs, lines 54 to 83).
use ibv.Prelude.{
  ℕ, ◌≤◌, ◌≡◌, ◌≢◌, ◌⊎◌, inl, inr, Option, none, some, List, [], length, arith, false, ℕ_discrete,
  Option-cases,
}
use ibv.Verbs.{IbvWc, Verbs}
use ibv.Wr.{ok, err}
use ibv.Cq.{Cq, new, get_event, poll_wc}

-- `poll_wc` asks the device only for a positive number; a negative answer is an error with the
-- system's number, and any other gives the completions of the device, no more than were asked
-- for.
poll_wc-cases :
    (V : Verbs) (n : ℕ) (dev : V.Dev)
    → let (result, dev') = poll_wc V n dev in
      ((n ≡ 0) × (result ≡ ok []) × (dev' ≡ dev))
      ⊎ ((n ≢ 0) × ((V.poll_cq dev n).0 ≡ none) × (result ≡ err (V.last_os_error dev')))
      ⊎ ((n ≢ 0)
          × ((wcs : List IbvWc) × ((V.poll_cq dev n).0 ≡ some wcs)
              × (result ≡ ok wcs)
              × (length wcs ≤ n)))
unfolding poll_wc
poll_wc-cases V n dev = elim (ℕ_discrete n 0) [
  | yes e ↦ inl (e, ground arith, ground arith)
  | no e ↦ elim (Option-cases (V.poll_cq dev n).0) [
    | inl fails ↦ inr (inl (e, fails, ground arith))
    | inr (wcs, taken) ↦ inr (inr (e, (wcs, taken, ground arith, V.poll_cq-le dev n wcs taken)))
  ]
]

-- On a queue that is made without a channel, `get_event` panics.
pub get_event-new :
    (create_comp_channel : Option ℕ) (create_cq : ℕ → Option ℕ → Option ℕ) (get_cq_event : ℕ → ℕ)
    {cq : Cq}
    → new create_comp_channel create_cq false ≡ some cq
    → get_event get_cq_event cq ≡ none
unfolding new get_event
get_event-new create_comp_channel create_cq get_cq_event h = ground arith

-- ===== src/Pillow/Budget.antt =====
-- The restart budget and the waits of a supervised process, and the readiness of a group.
use hostel.Base.{
  String, ℕ, zero, suc, ◌+◌, ◌-◌, ◌^◌, ◌≤◌, ◌<◌, ◌≡◌, ◌↔◌, refl, min, Bool, true, false, not, ◌&&◌,
  List, [], ◌∷◌, ltb, arith, any, if◌then◌else◌, Bool-cases, inl, inr,
}
use hostel.Pillow.Supervision.{
  RestartPolicy, Wake, timer_fires, restart_asked, context_done, Turn, Event, decided, restarted,
  stopped, again, backoff, failed, completed, is_automatic, is_failure, backoff_seconds, decide,
  last_run, supervise, Pillow, scan_records, group_readiness, is_terminal,
}

-- A course of events from a counter on: each wait announces the counter after it, which is one more
-- than before and within the budget, and lasts 1 to 30 s; an explicit restart, of a run, a wait or a
-- rest, puts the counter back to 0; nothing follows the end of the loop.
abbrev pub IsWithin : ℕ → ℕ → List Event → Type 0
IsWithin budget n [] = Unit
IsWithin budget n (decided (again k) ∷ es) = (k ≡ 0) × IsWithin budget 0 es
IsWithin budget n (decided (backoff k seconds) ∷ es) =
    (k ≡ suc n) × (k ≤ budget) × (0 < seconds) × (seconds ≤ 30) × IsWithin budget k es
IsWithin budget n (decided failed ∷ es) = IsWithin budget n es
IsWithin budget n (decided completed ∷ es) = IsWithin budget n es
IsWithin budget n (restarted ∷ es) = IsWithin budget 0 es
IsWithin budget n (stopped ∷ es) = es ≡ []

-- How many waits precede the first explicit restart.
abbrev pub waits : List Event → ℕ
waits [] = 0
waits (decided (again n) ∷ es) = 0
waits (decided (backoff n s) ∷ es) = suc (waits es)
waits (decided failed ∷ es) = waits es
waits (decided completed ∷ es) = waits es
waits (restarted ∷ es) = 0
waits (stopped ∷ es) = 0

power-pos : (n : ℕ) → 0 < 2 ^ n
power-pos zero = omega arith
power-pos (suc n) = omega (arith, power-pos n)

backoff_seconds_lem : (n : ℕ) → (0 < backoff_seconds n) × (backoff_seconds n ≤ 30)
unfolding backoff_seconds
backoff_seconds_lem n = let positive = power-pos (min (n - 1) 5) in (omega arith, omega arith)

-- A course of events that keeps within the budget, and its number of waits.
abbrev KeepsBudget : ℕ → ℕ → List Event → Type 0
KeepsBudget budget n es = IsWithin budget n es × (waits es + n ≤ budget)

rest-KeepsBudget :
    (budget n : ℕ) (es : List Event) (resumed : Bool)
    → n ≤ budget
    → IsWithin budget 0 es
    → KeepsBudget budget n (if resumed then restarted ∷ es else stopped ∷ [])
rest-KeepsBudget budget n es true low within = (within, omega arith)
rest-KeepsBudget budget n es false low within = (refl, omega arith)

wake-KeepsBudget :
    (budget n : ℕ) (fires restarts : List Event) (wake : Wake)
    → n ≤ budget
    → KeepsBudget budget n fires
    → IsWithin budget 0 restarts
    → KeepsBudget budget n (elim wake [
      | timer_fires ↦ fires
      | restart_asked ↦ restarted ∷ restarts
      | context_done ↦ stopped ∷ []
    ])
wake-KeepsBudget budget n fires restarts timer_fires low within anew = within
wake-KeepsBudget budget n fires restarts restart_asked low within anew = (anew, omega arith)
wake-KeepsBudget budget n fires restarts context_done low within anew = (refl, omega arith)

-- Whatever its runs return and whatever ends its waits and rests: each wait of a supervised process
-- lasts one to thirty seconds and announces a counter that is one more than before and within the
-- restart budget, the counter starts anew at 0 after every explicit restart, nothing follows the end
-- of the loop, and at most the rest of the budget is spent before an explicit restart.
pub supervise-budget :
    (ports : List (String × Bool)) (policy : RestartPolicy) (budget restarts : ℕ) (ts : List Turn)
    → restarts ≤ budget
    → IsWithin budget restarts (supervise ports policy budget restarts ts)
      × (waits (supervise ports policy budget restarts ts) + restarts ≤ budget)
unfolding supervise decide
supervise-budget ports policy budget restarts [] h = (tt, omega arith)
supervise-budget ports policy budget restarts (t ∷ ts) h =
    let r = last_run ports t.runs 2 0 in
    let anew = supervise-budget ports policy budget 0 ts (omega arith) in
    let rest =
      rest-KeepsBudget budget restarts (supervise ports policy budget 0 ts) t.resumed h anew.0 in
    elim (Bool-cases t.canceled) [
      | inl ended ↦ rw (ended, supervise) (refl, omega arith)
      | inr live ↦ elim (Bool-cases r.explicit) [
        | inl asked ↦ rw (live, asked, supervise, decide) ((refl, anew.0), omega arith)
        | inr own ↦ elim (Bool-cases (is_automatic policy r && ltb restarts budget)) [
          | inl retried ↦
              let below : restarts < budget = ground arith in
              let wait = backoff_seconds_lem (suc restarts) in
              let fires = supervise-budget ports policy budget (suc restarts) ts below in
              let woken =
                wake-KeepsBudget budget (suc restarts)
                  (supervise ports policy budget (suc restarts) ts)
                  (supervise ports policy budget 0 ts) t.wake below fires anew.0 in
              rw (live, own, retried, supervise, decide)
                ((refl, below, wait.0, wait.1, woken.0), omega (arith, woken.1))
          | inr given_up ↦ elim (Bool-cases (is_failure r)) [
            | inl bad ↦ rw (live, own, given_up, bad, supervise, decide) rest
            | inr good ↦ rw (live, own, given_up, good, supervise, decide) rest
          ]
        ]
      ]
    ]

scan_records-ready :
    (ready : Bool) (rs : List Pillow)
    → (scan_records ready rs).0 ≡ (ready && not (any (λ r. r.required && not r.ready) rs))
unfolding scan_records
scan_records-ready ready [] = ground arith
scan_records-ready ready (r ∷ rs) =
    let waiting = scan_records-ready false rs in
    let rest = scan_records-ready ready rs in
    elim (Bool-cases (r.required && not r.ready)) [
      | inl unready ↦ elim (Bool-cases (is_terminal r.phase)) [
        | inl over ↦ rw (unready, over, scan_records) (ground arith)
        | inr alive ↦ rw (unready, alive, scan_records) (ground arith)
      ]
      | inr fine ↦ rw (fine, scan_records) rest
    ]

-- A group is ready exactly if it is not stopped and each required Pillow of it is ready.
pub group_readiness-exact :
    (is_stopped : Bool) (rs : List Pillow)
    → ((group_readiness is_stopped rs).0 ≡ true)
      ↔ ((is_stopped ≡ false) × (any (λ r. r.required && not r.ready) rs ≡ false))
unfolding group_readiness
group_readiness-exact is_stopped rs = ground (arith, scan_records-ready (not is_stopped) rs)

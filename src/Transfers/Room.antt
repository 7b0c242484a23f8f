-- ===== src/Transfers/Room.antt =====
-- makeRoomLocked of internal/bed/store/transfer.go: its loop ends with room.
use hostel.Base.{
  ℕ, zero, suc, ◌≤◌, ◌<◌, ◌≡◌, refl, sym, ap, ◌∙◌, subst, String, Bool, true, false, none, some, [],
  ◌∷◌, if◌then◌else◌, ltb, ◌==◌, string_eq, inl, inr, ◌⊎◌, arith, Bool-cases, Option-cases,
}
use hostel.Base.GoMap.{
  GoMap, lookup, insert, delete, count, IsMap, to_nat, lookup-delete, delete-IsMap, count-delete,
}
use hostel.Transfers.State.{TransferRun, transfer_history_limit}
use hostel.Transfers.Registry.{is_running, oldest, make_room_loop, make_room}

abbrev pub Runs : Type 0
Runs = GoMap String TransferRun

abbrev is_unfinished : TransferRun → Bool
is_unfinished run = elim run.status.finished_at [ none ↦ true | some at ↦ false ]

-- A run has an end exactly if it is in a terminal state.
abbrev pub IsSettled : TransferRun → Type 0
IsSettled run = is_running run ≡ is_unfinished run

abbrev pub AllSettled : Runs → Type 0
AllSettled [] = Unit
AllSettled ((key, run) ∷ rest) = IsSettled run × AllSettled rest

abbrev pub size : Runs → ℕ
size runs = count (λ run. true) runs

pub AllSettled-lookup :
    (key : String) (run : TransferRun) (runs : Runs)
    → AllSettled runs
    → lookup key runs ≡ some run
    → IsSettled run
unfolding lookup
AllSettled-lookup key run [] all at = absurd (ground arith)
AllSettled-lookup key run ((k, first) ∷ rest) all at = elim (Bool-cases (k == key)) [
  | inl here ↦ let one : first ≡ run = ground (arith, here) in subst IsSettled one all.0
  | inr off ↦
      AllSettled-lookup key run rest all.1
        (ap (λ b. if b then some first else lookup key rest) (sym off) ∙ at)
]

pub AllSettled-delete :
    (key : String) (runs : Runs) → AllSettled runs → AllSettled (delete key runs)
unfolding delete
AllSettled-delete key [] all = tt
AllSettled-delete key ((k, run) ∷ rest) all = elim (Bool-cases (k == key)) [
  | inl here ↦ rw here (AllSettled-delete key rest all.1)
  | inr off ↦ rw off (all.0, AllSettled-delete key rest all.1)
]

pub AllSettled-insert :
    (key : String) (run : TransferRun) (runs : Runs)
    → IsSettled run
    → AllSettled runs
    → AllSettled (insert key run runs)
unfolding insert
AllSettled-insert key run [] own all = (own, tt)
AllSettled-insert key run ((k, first) ∷ rest) own all = elim (Bool-cases (k == key)) [
  | inl here ↦ rw here (own, all.1)
  | inr off ↦ rw off (all.0, AllSettled-insert key run rest own all.1)
]

oldest-cons_none :
    (k : String) (run : TransferRun) (rest : Runs)
    → oldest ((k, run) ∷ rest) ≡ none
    → (is_unfinished run ≡ true) × (oldest rest ≡ none)
unfolding oldest
oldest-cons_none k run rest nothing = ground arith

oldest-cons_some :
    (k key : String) (at : ℕ) (run : TransferRun) (rest : Runs)
    → oldest ((k, run) ∷ rest) ≡ some (key, at)
    → ((k ≡ key) × (is_unfinished run ≡ false)) ⊎ (oldest rest ≡ some (key, at))
unfolding oldest
oldest-cons_some k key at run rest found = ground arith

-- A registry without a finished run is running in whole.
oldest-none :
    (runs : Runs) → AllSettled runs → oldest runs ≡ none → count is_running runs ≡ size runs
unfolding oldest count
oldest-none [] all nothing = refl
oldest-none ((k, run) ∷ rest) all nothing =
    let (first, others) = oldest-cons_none k run rest nothing in
    let busy : is_running run ≡ true = all.0 ∙ first in
    omega (arith, ap to_nat busy, oldest-none rest all.1 others)

oldest-some :
    (runs : Runs) (key : String) (at : ℕ)
    → IsMap runs
    → AllSettled runs
    → oldest runs ≡ some (key, at)
    → (run : TransferRun) × (lookup key runs ≡ some run) × (is_running run ≡ false)
unfolding oldest lookup
oldest-some [] key at unique all found = absurd (ground arith)
oldest-some ((k, run) ∷ rest) key at unique all found =
    elim (oldest-cons_some k key at run rest found) [
      | inl (one, done) ↦ (run, ground (arith, string_eq.same_iff k key, one), all.0 ∙ done)
      | inr later ↦
          let (theirs, held, done) = oldest-some rest key at unique.1 all.1 later in
          let apart : (k == key) ≡ false =
            ground (arith, string_eq.same_iff k key, unique.0, held) in
          (theirs, ap (λ b. if b then some run else lookup key rest) apart ∙ held, done)
    ]

-- What the loop leaves: room for one more, and every run that is not finished.
pub record HasRoom (before after : Runs) : Type 0 where
  pub room : size after < transfer_history_limit
  pub same_running : count is_running after ≡ count is_running before
  pub unique : IsMap after
  pub settled : AllSettled after
  pub kept :
      (key : String) (run : TransferRun)
      → lookup key before ≡ some run
      → is_running run ≡ true
      → lookup key after ≡ some run
  pub absent : (key : String) → lookup key before ≡ none → lookup key after ≡ none

there-HasRoom :
    (runs : Runs)
    → IsMap runs
    → AllSettled runs
    → size runs < transfer_history_limit
    → HasRoom runs runs
there-HasRoom runs unique all room = record {
  room = room;
  same_running = refl;
  unique = unique;
  settled = all;
  kept = λ key run at busy. at;
  absent = λ key gone. gone;
}

stays_off :
    (key other : String) (run theirs : TransferRun) (runs : Runs)
    → lookup key runs ≡ some run
    → lookup other runs ≡ some theirs
    → is_running run ≡ false
    → is_running theirs ≡ true
    → lookup other (delete key runs) ≡ some theirs
stays_off key other run theirs runs held there done busy = elim (Bool-cases (key == other)) [
  | inr off ↦
      lookup-delete key other runs ∙ ap (λ b. if b then none else lookup other runs) off ∙ there
  | inl here ↦
      let one : key ≡ other = (string_eq.same_iff key other).0 here in
      let same : some run ≡ some theirs = sym held ∙ ap (λ k. lookup k runs) one ∙ there in
      let equal : run ≡ theirs = ground (arith, same) in
      absurd (ground (arith, sym done ∙ ap is_running equal ∙ busy))
]

make_room_loop-HasRoom :
    (n : ℕ) (runs : Runs)
    → size runs ≤ n
    → IsMap runs
    → AllSettled runs
    → count is_running runs < transfer_history_limit
    → HasRoom runs (make_room_loop n runs)
unfolding make_room_loop
make_room_loop-HasRoom zero runs fuel unique all active =
    there-HasRoom runs unique all (omega arith)
make_room_loop-HasRoom (suc n) runs fuel unique all active =
    elim (Bool-cases (ltb (size runs) transfer_history_limit)) [
      | inl room ↦ rw room (there-HasRoom runs unique all (ground arith))
      | inr full ↦ elim (Option-cases (oldest runs)) [
        | inl nothing ↦ absurd (ground (arith, oldest-none runs all nothing))
        | inr ((key, at), found) ↦
            let (run, held, done) = oldest-some runs key at unique all found in
            let fewer = count-delete (λ run. true) key run runs unique held in
            let same = count-delete is_running key run runs unique held in
            let rest =
              make_room_loop-HasRoom n (delete key runs) (omega arith)
                (delete-IsMap key runs unique) (AllSettled-delete key runs all)
                (omega (arith, ap to_nat done)) in
            rw (full, found)
              (record {
                room = rest.room;
                same_running = rest.same_running ∙ omega (arith, ap to_nat done);
                unique = rest.unique;
                settled = rest.settled;
                kept = λ other theirs there busy.
                    rest.kept other theirs
                      (stays_off key other run theirs runs held there done busy) busy;
                absent =
                    λ other gone. rest.absent other (ground (arith, lookup-delete key other runs));
              })
      ]
    ]

-- With fewer than 1024 unfinished runs the loop of makeRoomLocked ends with room for another: it has
-- deleted finished runs only.
pub make_room-HasRoom :
    (runs : Runs)
    → IsMap runs
    → AllSettled runs
    → count is_running runs < transfer_history_limit
    → HasRoom runs (make_room runs)
unfolding make_room
make_room-HasRoom runs unique all active =
    make_room_loop-HasRoom (size runs) runs (omega arith) unique all active

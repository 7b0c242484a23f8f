-- ===== src/Execution/Refine.antt =====
-- The output cache of internal/bed/manager/execution.go against the log of everything that was ever
-- written to the execution.
use hostel.Base.{
  ℕ, suc, ◌+◌, ◌≤◌, ◌≡◌, refl, sym, ap, ◌∙◌, false, ◌||◌, Option, none, some, List, [], ◌∷◌, ◌++◌,
  map, ltb, length, drop, inl, inr, length-append, length-drop, drop-drop, drop-append, map-drop,
  map-append, arith, Bool-cases,
}
use hostel.Execution.State.{
  Execution, ExecutionOutput, OutputStream, output_budget, output_fragments,
}
use hostel.Execution.Output.{clip, evict, append_output}
use hostel.Execution.Eviction.{total, total-append, after, Fits, evict-least}

-- The cache of an execution with this log: its youngest fragments, clipped.
pub record Represents (log : List ExecutionOutput) (e : Execution) : Type 0 where
  pub numbered : e.next_output ≡ length log
  pub inside : e.dropped ≤ length log
  pub kept : e.output ≡ map clip (drop e.dropped log)
  pub counted : e.output_bytes ≡ total e.output
  pub bytes : e.output_bytes ≤ output_budget
  pub fragments : length e.output ≤ output_fragments
  pub whole : e.truncated ≡ false → (e.dropped ≡ 0) × (map clip log ≡ log)

length-map {ℓ κ} :
    {A : Type ℓ} {B : Type κ} (f : A → B) (xs : List A) → length (map f xs) ≡ length xs
length-map f [] = refl
length-map f (x ∷ xs) = ap suc (length-map f xs)

clip_small : (x : ExecutionOutput) → ltb output_budget (length x.text) ≡ false → clip x ≡ x
unfolding clip
clip_small x small = rw small refl

abbrev pub fragment : ℕ → OutputStream → List ℕ → ExecutionOutput
fragment number stream text = record { sequence = number; stream = stream; text = text }

-- The cache with a new fragment, before the loop.
abbrev pub grown : Execution → OutputStream → List ℕ → List ExecutionOutput
grown e stream text = e.output ++ (clip (fragment e.next_output stream text) ∷ [])

module _ (log : List ExecutionOutput) (e : Execution) (rep : Represents log e)
    (stream : OutputStream) (text : List ℕ) where
  new_one : ExecutionOutput
  new_one = fragment e.next_output stream text

  cache : List ExecutionOutput
  cache = grown e stream text

  entered : Execution
  entered = record e {
    next_output = suc e.next_output;
    truncated = e.truncated || ltb output_budget (length text);
    output_bytes = e.output_bytes + length (clip new_one).text;
  }

  grown-suffix : cache ≡ map clip (drop e.dropped (log ++ (new_one ∷ [])))
  unfolding cache new_one
  grown-suffix =
      ap (λ xs. xs ++ (clip new_one ∷ [])) rep.kept
      ∙ sym (map-append clip (drop e.dropped log) (new_one ∷ []))
      ∙ ap (map clip) (sym (drop-append e.dropped log (new_one ∷ []) rep.inside))

  grown-counted : entered.output_bytes ≡ total cache
  unfolding cache entered new_one
  grown-counted = omega (arith, rep.counted, total-append e.output (clip new_one ∷ []))

  length-grown : e.dropped + length cache ≡ suc (length log)
  unfolding cache new_one
  length-grown = omega (
    arith,
    length-append e.output (clip new_one ∷ []),
    ap length rep.kept,
    length-map clip (drop e.dropped log),
    length-drop e.dropped log,
    rep.inside,
  )

  append_entered :
      (e' : Execution)
      → evict cache entered ≡ some e'
      → append_output e stream text ≡ some (new_one, e')
  unfolding append_output cache entered new_one
  append_entered e' done = ap answer done
    where
      answer : Option Execution → Option (ExecutionOutput × Execution)
      answer none = none
      answer (some x) = some (new_one, x)

  whole_after :
      (k : ℕ)
      → ((e.truncated || ltb output_budget (length text)) || ltb 0 k) ≡ false
      → (e.dropped + k ≡ 0) × (map clip (log ++ (new_one ∷ [])) ≡ log ++ (new_one ∷ []))
  whole_after k whole = elim (Bool-cases (ltb output_budget (length text))) [
    | inl large ↦ absurd (ground arith)
    | inr small ↦
        let (none_dropped, all) = rep.whole (ground arith) in
        (
          ground arith,
          map-append clip log (new_one ∷ [])
              ∙ ap (λ xs. xs ++ (clip new_one ∷ [])) all
              ∙ ap (λ x. log ++ (x ∷ [])) (clip_small new_one (unfold new_one in small)),
        )
  ]

  -- AppendOutput answers with the fragment and keeps the longest run of the youngest that fits.
  pub append_output_lem :
      (k : ℕ) × (e' : Execution) × (append_output e stream text
        ≡ some (fragment e.next_output stream text, e'))
      × Fits (grown e stream text) k
      × (e'.output ≡ drop k (grown e stream text))
      × Represents (log ++ (fragment e.next_output stream text ∷ [])) e'
  unfolding cache entered new_one
  append_output_lem =
      let (k, fits, evicted) = evict-least cache entered grown-counted in
      (
        k,
        after k cache entered,
        append_entered (after k cache entered) evicted,
        fits,
        refl,
        record {
          numbered = omega (arith, rep.numbered, length-append log (new_one ∷ []));
          inside = omega (arith, length-append log (new_one ∷ []), length-grown, fits.inside);
          kept =
              ap (drop k) grown-suffix
              ∙ sym (map-drop clip k (drop e.dropped (log ++ (new_one ∷ []))))
              ∙ ap (map clip) (drop-drop k e.dropped (log ++ (new_one ∷ [])));
          counted = refl;
          bytes = fits.bytes;
          fragments = fits.fragments;
          whole = whole_after k;
        },
      )

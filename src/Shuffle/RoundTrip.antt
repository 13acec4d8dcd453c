-- ===== src/Shuffle/RoundTrip.antt =====
-- The records of a partition of src/tasks/shuffle/shuffle_logical_task.cpp, as bytes and as what the
-- loop that reads them finds.
use m3bp.Prelude.{
  ℕ, zero, suc, ◌+◌, ◌-◌, ◌<◌, ◌≤◌, ◌≡◌, refl, ap, subst, sym, ◌∙◌, false, some, List, [], ◌∷◌,
  ◌++◌, length, length-append, append-nil, append_assoc, ◌==◌, if◌then◌else◌, arith, word,
  Bool-cases, ==_refl, inl, inr,
}
use m3bp.Prelude.Words.{◌+w◌, ◌-w◌}
use m3bp.Memory.Arrays.{Array, slice, slice-cong}
use m3bp.Memory.Bytes.{Holds, Holds-split, read_word, read_word_lem, word_bytes, slice_at}
use m3bp.Shuffle.Partition.{KeyValueBuffer}
use m3bp.Shuffle.Dealt.{
  offset_of, length_of, key_length_of, partition_of, chunk, length-chunk, dealt, dealt-zero,
  dealt-hit, dealt-miss, IsKeyValues,
}
use m3bp.Shuffle.Sums.{offsets_lem}
use m3bp.Shuffle.Reading.{Record, record_at, scan_pointers}

abbrev pub AllBelow : ℕ → List ℕ → Type 0
AllBelow n [] = Unit
AllBelow n (j ∷ js) = (j < n) × AllBelow n js

module _ (src : KeyValueBuffer) (pc : ℕ) where
  -- The `j`th record of the source.
  abbrev pub source_record : ℕ → Record
  source_record j = (
    slice src.values_data.at (offset_of src pc j) (key_length_of src pc j),
    slice src.values_data.at (offset_of src pc j + key_length_of src pc j)
        (length_of src pc j - key_length_of src pc j),
  )

  -- Which of the first `i` records belong to partition `p`.
  unfoldable pub members : (p i : ℕ) → List ℕ
  members p zero = []
  members p (suc i) = members p i ++ (if partition_of src pc i == p then i ∷ [] else [])

  unfoldable pub chunks : List ℕ → List ℕ
  chunks [] = []
  chunks (j ∷ js) = chunk src pc j ++ chunks js

  chunks-append : (xs ys : List ℕ) → chunks (xs ++ ys) ≡ chunks xs ++ chunks ys
  unfolding chunks
  chunks-append [] ys = refl
  chunks-append (x ∷ xs) ys =
      ap (λ (l : List ℕ). chunk src pc x ++ l) (chunks-append xs ys)
      ∙ sym (append_assoc (chunk src pc x) (chunks xs) (chunks ys))

  chunks-one : (j : ℕ) → chunks (j ∷ []) ≡ chunk src pc j
  unfolding chunks
  chunks-one j = append-nil (chunk src pc j)

  -- A record takes more than no byte.
  pub length-chunks : (js : List ℕ) → length js ≤ length (chunks js)
  unfolding chunks
  length-chunks [] = omega arith
  length-chunks (j ∷ js) =
      omega
        (arith, length-append (chunk src pc j) (chunks js), length-chunk src pc j, length-chunks js)

  pub chunks-members : (p i : ℕ) → dealt src pc p i ≡ chunks (members p i)
  unfolding members chunks
  chunks-members p zero = dealt-zero src pc p
  chunks-members p (suc i) = elim (Bool-cases (partition_of src pc i == p)) [
    | inl hit ↦
        dealt-hit src pc p i hit
        ∙ rw hit (
            ap (λ (l : List ℕ). l ++ chunk src pc i) (chunks-members p i)
            ∙ sym (
                chunks-append (members p i) (i ∷ [])
                ∙ ap (λ (l : List ℕ). chunks (members p i) ++ l) (chunks-one i)))
    | inr miss ↦
        dealt-miss src pc p i miss
        ∙ rw miss (chunks-members p i ∙ ap chunks (sym (append-nil (members p i))))
  ]

  AllBelow-append : (n : ℕ) (xs ys : List ℕ) → AllBelow n xs → AllBelow n ys → AllBelow n (xs ++ ys)
  AllBelow-append n [] ys h g = g
  AllBelow-append n (x ∷ xs) ys h g = (h.0, AllBelow-append n xs ys h.1 g)

  AllBelow-more : (n : ℕ) (xs : List ℕ) → AllBelow n xs → AllBelow (suc n) xs
  AllBelow-more n [] h = tt
  AllBelow-more n (x ∷ xs) h = (omega (arith, h.0), AllBelow-more n xs h.1)

  pub members-AllBelow : (p i : ℕ) → AllBelow i (members p i)
  unfolding members
  members-AllBelow p zero = tt
  members-AllBelow p (suc i) =
      AllBelow-append (suc i) (members p i) _ (AllBelow-more i (members p i) (members-AllBelow p i))
        (elim (Bool-cases (partition_of src pc i == p)) [
          | inl hit ↦ rw hit (omega arith, tt)
          | inr miss ↦ rw miss tt
        ])

  -- The pointers lead to these records of the source, one by one.
  abbrev pub Finds : Array → List ℕ → List ℕ → Type 0
  Finds c [] [] = Unit
  Finds c (ptr ∷ ptrs) (j ∷ js) = (record_at c ptr ≡ some (source_record j)) × Finds c ptrs js
  Finds c _ _ = ⊥

  module _ (ok : IsKeyValues src pc) (c : Array) (small : c.size < word) where
    record_steps :
        (ptr size len p₁ p₂ p₃ rest : ℕ)
        → read_word c ptr ≡ some size
        → ptr +w 8 ≡ p₁
        → read_word c p₁ ≡ some len
        → ptr +w 16 ≡ p₂
        → p₂ +w len ≡ p₃
        → size -w len ≡ rest
        → record_at c ptr ≡ some (slice c.at p₂ len, slice c.at p₃ rest)
    unfolding record_at
    record_steps ptr size len p₁ p₂ p₃ rest a b d e f g = rw (a, b, d, e, f, g) refl

    -- One record where its bytes are.
    record_at_lem :
        (j ptr : ℕ)
        → j < src.record_count
        → ptr + (length_of src pc j + 16) ≤ c.size
        → Holds c.at ptr (chunk src pc j)
        → (read_word c ptr ≡ some (length_of src pc j)) × (record_at c ptr ≡ some (source_record j))
    unfolding chunk
    record_at_lem j ptr h fits held =
        let n = length_of src pc j in
        let len = key_length_of src pc j in
        let off = offset_of src pc j in
        let d = src.values_data.at in
        let (words, bytes) =
          Holds-split c.at ptr (word_bytes 8 n ++ word_bytes 8 len) (slice d off n) held in
        let (first, second) = Holds-split c.at ptr (word_bytes 8 n) (word_bytes 8 len) words in
        let short = ok.keys j h in
        let (_, end) = offsets_lem src pc ok (j + 1) (omega arith) in
        let size : read_word c ptr ≡ some n =
          read_word_lem c ptr n (omega arith) (omega (arith, ok.small)) first in
        let key_size : read_word c (ptr + 8) ≡ some len =
          read_word_lem c (ptr + 8) len (omega arith) (omega (arith, ok.small)) second in
        let at : (k : ℕ) → k < n → c.at (ptr + 16 + k) ≡ d (off + k) =
          slice_at c.at d (ptr + 16) off n bytes in
        let key : slice c.at (ptr + 16) len ≡ slice d off len =
          slice-cong c.at d (ptr + 16) off len (λ k less. at k (omega arith)) in
        let value : slice c.at (ptr + 16 + len) (n - len) ≡ slice d (off + len) (n - len) =
          slice-cong c.at d (ptr + 16 + len) (off + len) (n - len)
            (λ k less. grind (arith, at (len + k) (omega arith))) in
        (
          size,
          record_steps ptr n len (ptr + 8) (ptr + 16) (ptr + 16 + len) (n - len) size (omega arith)
                key_size (omega arith) (omega arith) (omega (arith, ok.small))
              ∙ rw (key, value) refl,
        )

    scan_step :
        (fuel ptr size next end : ℕ) (ptrs : List ℕ)
        → (ptr == end) ≡ false
        → read_word c ptr ≡ some size
        → ptr +w (size +w 16) ≡ next
        → scan_pointers c fuel next end ≡ some ptrs
        → scan_pointers c (suc fuel) ptr end ≡ some (ptr ∷ ptrs)
    unfolding scan_pointers
    scan_step fuel ptr size next end ptrs a b d e = rw (a, scan_pointers) (rw (b, d, e) refl)

    scan_end : (fuel ptr : ℕ) → scan_pointers c fuel ptr ptr ≡ some []
    unfolding scan_pointers
    scan_end zero ptr = rw (==_refl ptr, scan_pointers) refl
    scan_end (suc fuel) ptr = rw (==_refl ptr, scan_pointers) refl

    pub scan_pointers_lem :
        (js : List ℕ) (fuel ptr end : ℕ)
        → AllBelow src.record_count js
        → length js ≤ fuel
        → end ≡ ptr + length (chunks js)
        → end ≤ c.size
        → Holds c.at ptr (chunks js)
        → (ptrs : List ℕ) × (scan_pointers c fuel ptr end ≡ some ptrs) × Finds c ptrs js
    unfolding chunks
    scan_pointers_lem [] fuel ptr end below enough is_end fits held =
        let here : end ≡ ptr = omega arith in
        ([], ap (scan_pointers c fuel ptr) here ∙ scan_end fuel ptr, tt)
    scan_pointers_lem (j ∷ js) zero ptr end below enough is_end fits held = absurd (omega arith)
    scan_pointers_lem (j ∷ js) (suc fuel) ptr end below enough is_end fits held =
        let (mine, others) = Holds-split c.at ptr (chunk src pc j) (chunks js) held in
        let n = length_of src pc j in
        let sized : length (chunk src pc j) ≡ n + 16 = length-chunk src pc j in
        let whole = length-append (chunk src pc j) (chunks js) in
        let (size, found) = record_at_lem j ptr below.0 (omega arith) mine in
        let next : ptr + length (chunk src pc j) ≡ ptr + (n + 16) = omega arith in
        let (ptrs, e, finds) =
          scan_pointers_lem js fuel (ptr + (n + 16)) end below.1 (omega arith) (omega arith) fits
            (subst (λ (q : ℕ). Holds c.at q (chunks js)) next others) in
        (
          ptr ∷ ptrs,
          scan_step fuel ptr n (ptr + (n + 16)) end ptrs (ground arith) size (omega arith) e,
          (found, finds),
        )

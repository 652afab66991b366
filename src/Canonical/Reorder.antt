-- ===== src/Canonical/Reorder.antt =====
-- `canonicalize` of canonical.py on maps whose entries are written in another order.
use runtime_contracts.Prelude.{
  String, [], ◌∷◌, ◌≡◌, ◌≢◌, refl, ap, sym, ◌∙◌, arith, eq_iff, ◌==◌, string_eq, string_order, ok,
  ◌>>=◌, >>=-eq-ok, Bool-cases, inl, inr, if◌then◌else◌,
}
use runtime_contracts.Prelude.Sort.{
  Below-trans, insert_of_Below, sort, insert, insert_comm, IsSorted, sort-IsSorted,
}
use runtime_contracts.Canonical.Dict.{put}
use runtime_contracts.Canonical.Json.{Json, Dict, is_null, fields}
use runtime_contracts.Canonical.Value.{
  Platform, Value, Entries, Key, keep, sorted_fields, canonicalize, canonicalize_entries,
}

-- The dict without the first entry of the key.
erase : String → Dict Json → Dict Json
erase k [] = []
erase k (e ∷ d) = if k == e.0 then d else e ∷ erase k d

abbrev ordered : Dict Json → Dict Json
ordered d = sort (λ e. e.0) d

erase_comm : (k l : String) (d : Dict Json) → k ≢ l → erase k (erase l d) ≡ erase l (erase k d)
unfolding erase
erase_comm k l [] h = refl
erase_comm k l (e ∷ d) h = ground (arith, eq_iff k e.0, eq_iff l e.0, erase_comm k l d h)

erase-put :
    (k l : String) (w : Json) (d : Dict Json) → k ≢ l → erase k (put l w d) ≡ put l w (erase k d)
unfolding erase put
erase-put k l w [] h = ground (arith, eq_iff k l)
erase-put k l w (e ∷ d) h =
    ground (arith, eq_iff k e.0, eq_iff l e.0, eq_iff k l, erase-put k l w d h)

ordered-put :
    (k : String) (v : Json) (d : Dict Json)
    → ordered (put k v d) ≡ insert (λ e. e.0) (k, v) (ordered (erase k d))
unfolding erase put sort
ordered-put k v [] = refl
ordered-put k v (e ∷ d) = elim (Bool-cases (k == e.0)) [
  | inl same ↦ rw same refl
  | inr differs ↦ rw differs (
      ap (insert (λ x. x.0) e) (ordered-put k v d)
      ∙ insert_comm (λ x. x.0) e (k, v) (ordered (erase k d))
          (λ q. absurd (ground (arith, eq_iff k e.0))))
]

erase-insert :
    (k : String) (e : String × Json) (d : Dict Json)
    → IsSorted (λ x. x.0) d
    → erase k (insert (λ x. x.0) e d) ≡ (if k == e.0 then d else insert (λ x. x.0) e (erase k d))
unfolding erase insert
erase-insert k e [] s = refl
erase-insert k e (x ∷ d) s = elim (Bool-cases (string_order.le e.0 x.0)) [
  | inl first ↦ rw first (elim (Bool-cases (k == x.0)) [
    | inl same ↦
        ground (arith, insert_of_Below (λ x. x.0) e d (Below-trans (λ x. x.0) e x d first s.0))
    | inr differs ↦ ground arith
  ])
  | inr later ↦ elim (Bool-cases (k == e.0)) [
    | inl same ↦
        ground (arith, eq_iff k e.0, eq_iff k x.0, string_order.le_refl k, erase-insert k e d s.1)
    | inr differs ↦ ground (arith, erase-insert k e d s.1)
  ]
]

erase-ordered : (k : String) (d : Dict Json) → erase k (ordered d) ≡ ordered (erase k d)
unfolding erase sort
erase-ordered k [] = refl
erase-ordered k (e ∷ d) =
    erase-insert k e (ordered d) (sort-IsSorted (λ x. x.0) d) ∙ ground (arith, erase-ordered k d)

keep_cong :
    (k : String) (v : Json) (c d : Dict Json)
    → ordered c ≡ ordered d
    → ordered (keep k v c) ≡ ordered (keep k v d)
unfolding keep
keep_cong k v c d h = elim (Bool-cases (is_null v)) [
  | inl q ↦ rw q h
  | inr q ↦ rw q (
      ordered-put k v c
      ∙ ap (insert (λ x. x.0) (k, v)) (sym (erase-ordered k c) ∙ ap (erase k) h ∙ erase-ordered k d)
      ∙ sym (ordered-put k v d))
]

put-put :
    (k l : String) (v w : Json) (d : Dict Json)
    → k ≢ l
    → ordered (put k v (put l w d))
      ≡ insert (λ x. x.0) (k, v) (insert (λ x. x.0) (l, w) (ordered (erase l (erase k d))))
put-put k l v w d h =
    ordered-put k v (put l w d)
    ∙ ap (λ c. insert (λ x. x.0) (k, v) (ordered c)) (erase-put k l w d h)
    ∙ ap (insert (λ x. x.0) (k, v)) (ordered-put l w (erase k d))

put_swap :
    (k l : String) (v w : Json) (d : Dict Json)
    → k ≢ l
    → ordered (put k v (put l w d)) ≡ ordered (put l w (put k v d))
put_swap k l v w d h =
    put-put k l v w d h
    ∙ insert_comm (λ x. x.0) (k, v) (l, w) (ordered (erase l (erase k d))) h
    ∙ ap (λ c. insert (λ x. x.0) (l, w) (insert (λ x. x.0) (k, v) (ordered c)))
        (sym (erase_comm k l d h))
    ∙ sym (put-put l k w v d (λ q. h (sym q)))

keep_swap :
    (k l : String) (v w : Json) (d : Dict Json)
    → k ≢ l
    → ordered (keep k v (keep l w d)) ≡ ordered (keep l w (keep k v d))
unfolding keep
keep_swap k l v w d h = elim (Bool-cases (is_null v)) [
  | inl q ↦ rw q refl
  | inr q ↦ elim (Bool-cases (is_null w)) [
    | inl r ↦ rw (q, r) refl
    | inr r ↦ rw (q, r) (put_swap k l v w d h)
  ]
]

-- The entries of one map before those of another.
abbrev pub before : Entries → Entries → Entries
before Entries.end es = es
before (Entries.entry k v ds) es = Entries.entry k v (before ds es)

module _ (env : Platform) where
  -- The rest of a loop over a map's items sees its dict up to order.
  entries_cong :
      (es : Entries) (c d : Dict Json) {c' : Dict Json}
      → ordered c ≡ ordered d
      → canonicalize_entries env es c ≡ ok c'
      → (d' : Dict Json) × (canonicalize_entries env es d ≡ ok d') × (ordered c' ≡ ordered d')
  unfolding canonicalize
  entries_cong Entries.end c d {c'} h q =
      let same : c ≡ c' = ground arith in (d, refl, ap (λ x. ordered x) (sym same) ∙ h)
  entries_cong (Entries.entry Key.other v es) c d h q = cc
  entries_cong (Entries.entry (Key.text k) v es) c d {c'} h q =
      let (j, vq, r) =
        >>=-eq-ok (canonicalize env v) (λ j. canonicalize_entries env es (keep (env.nfc k) j c))
          q in
      let (d', p, z) =
        entries_cong es (keep (env.nfc k) j c) (keep (env.nfc k) j d) {c' = c'}
          (keep_cong (env.nfc k) j c d h) r in
      (d', rw vq p, z)

  entries_swap :
      (ds es : Entries) (k l : String) (v w : Value) (c : Dict Json) {c' : Dict Json}
      → env.nfc k ≢ env.nfc l
      → canonicalize_entries env
          (before ds (Entries.entry (Key.text k) v (Entries.entry (Key.text l) w es)))
          c
        ≡ ok c'
      → (d' : Dict Json) × (canonicalize_entries env
            (before ds (Entries.entry (Key.text l) w (Entries.entry (Key.text k) v es)))
            c
          ≡ ok d')
        × (ordered c' ≡ ordered d')
  unfolding canonicalize
  entries_swap Entries.end es k l v w c {c'} h q =
      let (j, vq, r) =
        >>=-eq-ok (canonicalize env v)
          (λ j. canonicalize_entries env (Entries.entry (Key.text l) w es) (keep (env.nfc k) j c))
          q in
      let (i, wq, p) =
        >>=-eq-ok (canonicalize env w)
          (λ i. canonicalize_entries env es (keep (env.nfc l) i (keep (env.nfc k) j c))) r in
      let (d', z, same) =
        entries_cong es (keep (env.nfc l) i (keep (env.nfc k) j c))
          (keep (env.nfc k) j (keep (env.nfc l) i c)) {c' = c'}
          (sym (keep_swap (env.nfc k) (env.nfc l) j i c h)) p in
      (
        d',
        ap
              (λ m. m >>= λ x.
                canonicalize_entries env (Entries.entry (Key.text k) v es) (keep (env.nfc l) x c))
              wq
            ∙ ap
                (λ m. m >>= λ x.
                  canonicalize_entries env es (keep (env.nfc k) x (keep (env.nfc l) i c)))
                vq
            ∙ z,
        same,
      )
  entries_swap (Entries.entry Key.other u ds) es k l v w c h q = cc
  entries_swap (Entries.entry (Key.text m) u ds) es k l v w c {c'} h q =
      let (j, uq, r) =
        >>=-eq-ok (canonicalize env u)
          (λ j.
            canonicalize_entries env
              (before ds (Entries.entry (Key.text k) v (Entries.entry (Key.text l) w es)))
              (keep (env.nfc m) j c))
          q in
      let (d', z, same) = entries_swap ds es k l v w (keep (env.nfc m) j c) {c' = c'} h r in
      (d', rw uq z, same)

  -- The canonical form of a map does not depend on the order of its entries: two neighbours whose
  -- keys have different normal forms can change places in a map that is accepted.
  pub canonicalize_swap :
      (ds es : Entries) (k l : String) (v w : Value) {j : Json}
      → env.nfc k ≢ env.nfc l
      → canonicalize env (
          Value.mapping
            (before ds (Entries.entry (Key.text k) v (Entries.entry (Key.text l) w es))))
        ≡ ok j
      → canonicalize env (
          Value.mapping
            (before ds (Entries.entry (Key.text l) w (Entries.entry (Key.text k) v es))))
        ≡ ok j
  unfolding canonicalize sorted_fields
  canonicalize_swap ds es k l v w {j} h q =
      let (c', p, r) =
        >>=-eq-ok
          (canonicalize_entries env
            (before ds (Entries.entry (Key.text k) v (Entries.entry (Key.text l) w es))) [])
          (λ out. ok (Json.obj (sorted_fields out))) q in
      let (d', z, same) = entries_swap ds es k l v w [] {c' = c'} h p in
      rw z (ap (λ x. ok (Json.obj (fields x))) (sym same) ∙ r)

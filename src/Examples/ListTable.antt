-- ===== src/Examples/ListTable.antt =====
-- A table as a list of rows: the laws that the services rely on can be met.
use soro_lend.Prelude.{
  ◌≡◌, refl, Bool, true, ◌&&◌, Option, none, some, List, [], ◌∷◌, arith, filter, if◌then◌else◌,
  Bool-cases, inl, inr, sym, ◌∙◌,
}
use mathlib.Core.List.{reverse}
use mathlib.Core.Option.{some-injective}
use soro_lend.Text.{Text, text_eq, text_eq_refl, text_eq_sound}
use soro_lend.Store.{Table}
use soro_lend.Store.Positions.{has_key, key_texts}

module _ {Row : Type 0} where
  abbrev pub first : (Row → Bool) → List Row → Option Row
  first p [] = none
  first p (r ∷ rs) = if p r then some r else first p rs

  -- The row takes the place of the first row that is the same, or goes to the end.
  abbrev pub put : (Row → Row → Bool) → Row → List Row → List Row
  put same r [] = r ∷ []
  put same r (q ∷ rs) = if same q r then r ∷ rs else q ∷ put same r rs

  abbrev pub change : (Row → Bool) → (Row → Row) → List Row → List Row
  change p f [] = []
  change p f (r ∷ rs) = (if p r then f r else r) ∷ change p f rs

  abbrev pub list_table : (Row → Row → Bool) → Table Row
  list_table same = record {
    Rows = List Row;
    find_one = first;
    find = filter;
    find_newest = λ p rs. reverse (filter p rs);
    find_oldest = filter;
    save = λ r rs. some (r, put same r rs);
    update = λ p f rs. some (change p f rs);
  }

  pub first_sound : (p : Row → Bool) (rs : List Row) {r : Row} → first p rs ≡ some r → p r ≡ true
  first_sound p [] h = cc
  first_sound p (q ∷ rs) {r} h = elim (Bool-cases (p q)) [
    | inl yes_ ↦ ground arith
    | inr no_ ↦ first_sound p rs (rw no_ at h)
  ]

  pub first-change :
      (p : Row → Bool) (f : Row → Row) (rs : List Row) {r : Row}
      → ((q : Row) → p (f q) ≡ p q)
      → first p rs ≡ some r
      → first p (change p f rs) ≡ some (f r)
  first-change p f [] keep h = cc
  first-change p f (q ∷ rs) {r} keep h = elim (Bool-cases (p q)) [
    | inl here ↦ ground (arith, keep q)
    | inr there ↦ rw (there, there) (first-change p f rs keep (rw there at h))
  ]

module _ {Row : Type 0} (key₁ key₂ : Row → Text) where
  abbrev pub same_keys : Row → Row → Bool
  same_keys q r = text_eq (key₁ q) (key₁ r) && text_eq (key₂ q) (key₂ r)

  same_has :
      (q r : Row) (u a : Text)
      → same_keys q r ≡ true
      → has_key key₁ key₂ u a q ≡ has_key key₁ key₂ u a r
  same_has q r u a h = let (e, f) = key_texts (key₁ q) (key₂ q) (key₁ r) (key₂ r) h in rw (e, f)

  both_same :
      (q r : Row) (u a : Text)
      → has_key key₁ key₂ u a q ≡ true
      → has_key key₁ key₂ u a r ≡ true
      → same_keys q r ≡ true
  both_same q r u a h k =
      let (e, f) = key_texts (key₁ q) (key₂ q) u a h in
      let (e', f') = key_texts (key₁ r) (key₂ r) u a k in
      rw (e, f, e', f', text_eq_refl u) (text_eq_refl a)

  pub first-put :
      (r : Row) (rs : List Row) (u a : Text)
      → first (has_key key₁ key₂ u a) (put same_keys r rs)
        ≡ (if has_key key₁ key₂ u a r then some r else first (has_key key₁ key₂ u a) rs)
  first-put r [] u a = refl
  first-put r (q ∷ rs) u a = elim (Bool-cases (same_keys q r)) [
    | inl same ↦
        rw (same, same_has q r u a same)
          (elim (Bool-cases (has_key key₁ key₂ u a r)) [ inl y ↦ rw y refl | inr n ↦ rw n refl ])
    | inr other ↦ rw other (elim (Bool-cases (has_key key₁ key₂ u a q)) [
      | inl y ↦ elim (Bool-cases (has_key key₁ key₂ u a r)) [
        | inl z ↦ cc (both_same q r u a y z, other)
        | inr n ↦ rw (y, n) refl
      ]
      | inr n ↦ rw n (first-put r rs u a)
    ])
  ]

-- A table with one row for each id.
module _ {Row : Type 0} (id : Row → Text) where
  abbrev pub same_id : Row → Row → Bool
  same_id q r = text_eq (id q) (id r)

  pub first-put_id :
      (r : Row) (rs : List Row) (i : Text)
      → first (λ q. text_eq (id q) i) (put same_id r rs)
        ≡ (if text_eq (id r) i then some r else first (λ q. text_eq (id q) i) rs)
  first-put_id r [] i = refl
  first-put_id r (q ∷ rs) i = elim (Bool-cases (text_eq (id q) (id r))) [
    | inl same ↦
        rw (same, text_eq_sound (id q) (id r) same)
          (elim (Bool-cases (text_eq (id r) i)) [ inl y ↦ rw y refl | inr n ↦ rw n refl ])
    | inr other ↦ rw other (elim (Bool-cases (text_eq (id q) i)) [
      | inl y ↦ elim (Bool-cases (text_eq (id r) i)) [
        | inl z ↦
            let e : id q ≡ id r = text_eq_sound (id q) i y ∙ sym (text_eq_sound (id r) i z) in
            let same : text_eq (id q) (id r) ≡ true = rw e (text_eq_refl (id r)) in cc (same, other)
        | inr n ↦ rw (y, n) refl
      ]
      | inr n ↦ rw n (first-put_id r rs i)
    ])
  ]

  pub first-change_id :
      (i j : Text) (f : Row → Row) (rs : List Row) {p : Row}
      → ((q : Row) → id (f q) ≡ id q)
      → first (λ q. text_eq (id q) j) rs ≡ some p
      → first (λ q. text_eq (id q) j) (change (λ q. text_eq (id q) i) f rs)
        ≡ some (if text_eq i j then f p else p)
  first-change_id i j f [] keep h = cc
  first-change_id i j f (q ∷ rs) {p} keep h = elim (Bool-cases (text_eq (id q) j)) [
    | inl here ↦
        let e = text_eq_sound (id q) j here in
        let same : q ≡ p = some-injective q p (rw here at h) in
        elim (Bool-cases (text_eq i j)) [
          | inl y ↦
              let hit : text_eq (id q) i ≡ true = rw (e, text_eq_sound i j y) (text_eq_refl j) in
              rw (hit, keep q, here, y, same) refl
          | inr n ↦ elim (Bool-cases (text_eq (id q) i)) [
            | inl hit ↦
                let y : text_eq i j ≡ true =
                  rw (sym (text_eq_sound (id q) i hit) ∙ e) (text_eq_refl j) in
                cc (y, n)
            | inr miss ↦ rw (miss, here, n, same) refl
          ]
        ]
    | inr there ↦ elim (Bool-cases (text_eq (id q) i)) [
      | inl hit ↦ rw (hit, keep q, there) (first-change_id i j f rs keep (rw there at h))
      | inr miss ↦ rw (miss, there) (first-change_id i j f rs keep (rw there at h))
    ]
  ]

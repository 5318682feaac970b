-- ===== src/Governance/History.antt =====
-- What becomes of the states of all proposals when the service is called.
use soro_lend.Prelude.{◌≡◌, refl, sym, ◌∙◌, inl, inr, true, false, some, Bool-cases, if◌then◌else◌}
use mathlib.Core.Option.{some-injective}
use soro_lend.Text.{Text, text_eq, text_eq_sound, is_truthy}
use soro_lend.Schema.{Proposal, ProposalStatus}
use soro_lend.Store.{Table}
use soro_lend.Governance.Lifecycle.{◌⟶◌}

-- Along any number of edges.
infix 40 ◌⟶*◌
pub data ◌⟶*◌ (s : ProposalStatus) : ProposalStatus → Type 0 where
  stays : s ⟶* s
  moves : {t u : ProposalStatus} → s ⟶* t → t ⟶ u → s ⟶* u

pub ⟶*-trans : {s t u : ProposalStatus} → s ⟶* t → t ⟶* u → s ⟶* u
⟶*-trans p stays = p
⟶*-trans p (moves q e) = moves (⟶*-trans p q) e

-- What the calls rely on in the table of proposals. An id is a text that is not empty; a row to be
-- created has none yet.
pub record StatusLaws (T : Table Proposal) (read_back : Proposal → Proposal) : Type 0 where
  pub found_id :
      (i : Text) (t : T.Rows) {p : Proposal}
      → T.find_one (λ q. text_eq q.id i) t ≡ some p
      → p.id ≡ i
  -- a new row leaves the others as they were
  pub found-create :
      (r : Proposal) (t : T.Rows) {r' : Proposal} {t' : T.Rows} (i : Text)
      → T.save r t ≡ some (r', t')
      → is_truthy r.id ≡ false
      → is_truthy i ≡ true
      → T.find_one (λ q. text_eq q.id i) t' ≡ T.find_one (λ q. text_eq q.id i) t
  -- a row that is saved again is found as the columns give it back, the others as they were
  pub found-save :
      (r : Proposal) (t : T.Rows) {r' : Proposal} {t' : T.Rows} (i : Text)
      → T.save r t ≡ some (r', t')
      → is_truthy r.id ≡ true
      → T.find_one (λ q. text_eq q.id i) t'
        ≡ (if text_eq r.id i then some (read_back r') else T.find_one (λ q. text_eq q.id i) t)
  -- so is a row that is updated by its id
  pub found-update :
      (i j : Text) (change : Proposal → Proposal) (t : T.Rows) {t' : T.Rows} {p : Proposal}
      → ((q : Proposal) → (change q).id ≡ q.id)
      → T.update (λ q. text_eq q.id i) change t ≡ some t'
      → T.find_one (λ q. text_eq q.id j) t ≡ some p
      → T.find_one (λ q. text_eq q.id j) t' ≡ some (if text_eq i j then read_back (change p) else p)
  -- a status is saved and given back as it was written
  pub saved_status :
      (r : Proposal) (t : T.Rows) {r' : Proposal} {t' : T.Rows}
      → T.save r t ≡ some (r', t')
      → r'.status ≡ r.status
  pub keeps_status : (p : Proposal) → (read_back p).status ≡ p.status

module _ (T : Table Proposal) where
  -- Every proposal is still there, and its state has moved along the edges.
  abbrev pub Advances : T.Rows → T.Rows → Type 0
  Advances t t' =
      (i : Text) (p : Proposal)
      → is_truthy i ≡ true
      → T.find_one (λ q. text_eq q.id i) t ≡ some p
      → (p' : Proposal) × (T.find_one (λ q. text_eq q.id i) t' ≡ some p') × (p.status ⟶* p'.status)

  pub same-Advances : (t t' : T.Rows) → t' ≡ t → Advances t t'
  same-Advances t t' h i p id found = (p, rw h found, stays)

  pub Advances-trans : (t u v : T.Rows) → Advances t u → Advances u v → Advances t v
  Advances-trans t u v f g i p id found =
      let (q, there, way) = f i p id found in
      let (r, there', way') = g i q id there in (r, there', ⟶*-trans way way')

  module _ {read_back : Proposal → Proposal} (laws : StatusLaws T read_back) where
    pub create-Advances :
        (r : Proposal) (t : T.Rows) {r' : Proposal} {t' : T.Rows}
        → T.save r t ≡ some (r', t')
        → is_truthy r.id ≡ false
        → Advances t t'
    create-Advances r t written new i p id found =
        (p, laws.found-create r t i written new id ∙ found, stays)

    -- A row that was found is saved with a state that an edge leads to.
    pub save-Advances :
        (id : Text) (p r : Proposal) (t : T.Rows) {r' : Proposal} {t' : T.Rows}
        → T.find_one (λ q. text_eq q.id id) t ≡ some p
        → is_truthy id ≡ true
        → r.id ≡ p.id
        → p.status ⟶ r.status
        → T.save r t ≡ some (r', t')
        → Advances t t'
    save-Advances id p r t {r'} {t'} found truthy same edge written j q id' there =
        let own = sym (laws.found_id id t found) ∙ sym same in
        let r_truthy : is_truthy r.id ≡ true = rw (← own) truthy in
        let after = laws.found-save r t j written r_truthy in
        elim (Bool-cases (text_eq r.id j)) [
          | inr other ↦ (q, after ∙ rw other there, stays)
          | inl here ↦
              let found' : T.find_one (λ q. text_eq q.id j) t ≡ some p =
                rw (← (own ∙ text_eq_sound r.id j here)) found in
              let alike : p ≡ q = some-injective p q (sym found' ∙ there) in
              (
                read_back r',
                after ∙ rw here refl,
                rw (← alike, laws.keeps_status r', laws.saved_status r t written)
                    (moves stays edge),
              )
        ]

    -- An update that leaves the states alone.
    pub update-keeps :
        (i : Text) (change : Proposal → Proposal) (t : T.Rows) {t' : T.Rows}
        → ((q : Proposal) → (change q).id ≡ q.id)
        → ((q : Proposal) → (change q).status ≡ q.status)
        → T.update (λ q. text_eq q.id i) change t ≡ some t'
        → (j : Text) (p : Proposal) → T.find_one (λ q. text_eq q.id j) t ≡ some p
        → (p' : Proposal) × (T.find_one (λ q. text_eq q.id j) t' ≡ some p') × (p'.status ≡ p.status)
    update-keeps i change t same_id same_status written j p found =
        elim (Bool-cases (text_eq i j)) [
          | inl here ↦ (
            read_back (change p),
            laws.found-update i j change t same_id written found ∙ rw here refl,
            laws.keeps_status (change p) ∙ same_status p,
          )
          | inr other ↦
              (p, laws.found-update i j change t same_id written found ∙ rw other refl, refl)
        ]

-- ===== src/System/Proposals/Edges.antt =====
-- `activateProposal`, `finalizeProposal` and `executeProposal` on all proposals.
use soro_lend.Prelude.{
  ℕ, ◌≡◌, refl, ◌∙◌, inl, inr, arith, true, none, some, Bool-cases, Option-cases,
}
use soro_lend.Text.{Text, is_truthy}
use soro_lend.Runtime.{Result, ok, err}
use soro_lend.Schema.{Proposal, pending, active, succeeded, executed}
use soro_lend.Store.{Env, Db, proposal_by_id, bind_step}
use soro_lend.Governance.{
  update_tally, get_proposal, activate_proposal, finalize_proposal, execute_proposal, verdict,
  status_eq,
}
use soro_lend.Governance.Lifecycle.{
  ◌⟶◌, activate, succeed, defeat, execute, activate_lem, execute_lem, finalize_lem, settled,
  closing, verdict_cases, status_sound,
}
use soro_lend.Governance.Tallies.{get_proposal_found}
use soro_lend.Governance.History.{StatusLaws, Advances, same-Advances, Advances-trans}
use soro_lend.System.Proposals.{
  KeepsStates, update_tally-KeepsStates, states_advance, saved-Advances, unmoved,
}

module _ (E : Env) {read_back : Proposal → Proposal} (laws : StatusLaws E.proposals read_back) where
  activate_absent :
      (id : Text) (db : Db E) → proposal_by_id E id db ≡ none → (activate_proposal E id db).1 ≡ db
  unfolding activate_proposal
  activate_absent id db absent = ground arith

  execute_absent :
      (now : ℕ) (id : Text) (db : Db E)
      → proposal_by_id E id db ≡ none
      → (execute_proposal E now id db).1 ≡ db
  unfolding execute_proposal
  execute_absent now id db absent = ground arith

  finalize_absent :
      (id : Text) (db : Db E) → proposal_by_id E id db ≡ none → (finalize_proposal E id db).1 ≡ db
  unfolding finalize_proposal
  finalize_absent id db absent = ground arith

  pub activate-Advances :
      (id : Text) (db : Db E)
      → is_truthy id ≡ true
      → Advances E.proposals db.proposals (activate_proposal E id db).1.proposals
  activate-Advances id db truthy = elim (Option-cases (proposal_by_id E id db)) [
    | inl absent ↦ unmoved E db _ (activate_absent id db absent)
    | inr (p, found) ↦ elim (Bool-cases (status_eq p.status pending)) [
      | inr other ↦
          rw (activate_lem E id db found, other)
            (same-Advances E.proposals db.proposals db.proposals refl)
      | inl ready ↦
          let edge : p.status ⟶ active = rw (status_sound E p.status pending ready) activate in
          rw (activate_lem E id db found, ready)
            (saved-Advances E laws id p (record p { status = active }) db found truthy refl edge)
    ]
  ]

  pub execute-Advances :
      (now : ℕ) (id : Text) (db : Db E)
      → is_truthy id ≡ true
      → Advances E.proposals db.proposals (execute_proposal E now id db).1.proposals
  execute-Advances now id db truthy = elim (Option-cases (proposal_by_id E id db)) [
    | inl absent ↦ unmoved E db _ (execute_absent now id db absent)
    | inr (p, found) ↦ elim (Bool-cases (status_eq p.status succeeded)) [
      | inr other ↦
          rw (execute_lem E now id db found, other)
            (same-Advances E.proposals db.proposals db.proposals refl)
      | inl ready ↦
          let edge : p.status ⟶ executed = rw (status_sound E p.status succeeded ready) execute in
          rw (execute_lem E now id db found, ready)
            (saved-Advances E laws id p (record p { status = executed; executed_at = some now }) db
              found truthy refl edge)
    ]
  ]

  verdict_edge : (p q : Proposal) → p.status ≡ active → p.status ⟶ verdict E q
  verdict_edge p q h = elim (verdict_cases E q) [
    | inl won ↦ rw (h, won) succeed
    | inr lost ↦ rw (h, lost) defeat
  ]

  settled-Advances :
      (id : Text) (p : Proposal) (db : Db E)
      → proposal_by_id E id db ≡ some p
      → is_truthy id ≡ true
      → p.status ≡ active
      → Advances E.proposals db.proposals (settled E id db).1.proposals
  settled-Advances id p db found truthy is_active =
      rw (bind_step (get_proposal E id) (closing E) db (get_proposal_found E id db found)) (
        saved-Advances E laws id p (record p { status = verdict E p }) db found truthy refl
          (verdict_edge p p is_active))

  chained-Advances :
      (id : Text) (p : Proposal) (db : Db E)
      → proposal_by_id E id db ≡ some p
      → is_truthy id ≡ true
      → p.status ≡ active
      → (o : Result (Unit {0}) × Db E) → KeepsStates E db o.1
      → Advances E.proposals db.proposals
          (elim o.0 as (λ _. Result Proposal × Db E) [
            | ok u ↦ settled E id o.1
            | err e ↦ (err e, o.1)
          ]).1.proposals
  chained-Advances id p db found truthy is_active (ok u, db₁) keeps =
      let (q, there, same) = keeps id p found in
      Advances-trans E.proposals db.proposals db₁.proposals (settled E id db₁).1.proposals
        (states_advance E db db₁ keeps) (settled-Advances id q db₁ there truthy (same ∙ is_active))
  chained-Advances id p db found truthy is_active (err e, db₁) keeps = states_advance E db db₁ keeps

  pub finalize-Advances :
      (id : Text) (db : Db E)
      → is_truthy id ≡ true
      → Advances E.proposals db.proposals (finalize_proposal E id db).1.proposals
  finalize-Advances id db truthy = elim (Option-cases (proposal_by_id E id db)) [
    | inl absent ↦ unmoved E db _ (finalize_absent id db absent)
    | inr (p, found) ↦ elim (Bool-cases (status_eq p.status active)) [
      | inr other ↦
          rw (finalize_lem E id db found, other)
            (same-Advances E.proposals db.proposals db.proposals refl)
      | inl ready ↦
          rw (finalize_lem E id db found, ready)
            (chained-Advances id p db found truthy (status_sound E p.status active ready)
              (update_tally E p.id db) (update_tally-KeepsStates E laws p.id db))
    ]
  ]

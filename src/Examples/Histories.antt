-- ===== src/Examples/Histories.antt =====
-- A history of the backend on the small world.
use soro_lend.Prelude.{
  ℕ, ◌≡◌, refl, ap, ◌∙◌, true, false, inl, inr, arith, Bool-cases, some, none, List, [], ◌∷◌, ◌/◌,
}
use soro_lend.Prelude.Int.{pos}
use soro_lend.Text.{codes, text_eq, text_eq_sound, is_truthy}
use soro_lend.Schema.{Proposal}
use soro_lend.Store.{proposal_by_id}
use soro_lend.Governance.History.{◌⟶*◌, StatusLaws}
use soro_lend.System.States.{replay-⟶*}
use soro_lend.Examples.ListTable.{first_sound, first-put_id, first-change_id, change}
use soro_lend.Examples.Proposals.{yea}
use soro_lend.Text.Decimal.{bigint, to_text}
use soro_lend.Store.Natural.{natural_or_none}
use soro_lend.Text.Decimal.RoundTrip.{bigint-to_text}
use soro_lend.Liquidation.Solvency.{PrintsNatural}
use soro_lend.Http.Controllers.{collateral, governance, CollateralRequest, GovernanceRequest}
use soro_lend.Http.Controllers.Solvency.{Solvent}
use soro_lend.System.{
  Server, Happening, request, liquidation, scan, refresh, accrual, snapshot, poll, replay,
}
use soro_lend.System.Prices.{replay-assets}
use soro_lend.System.Solvency.{is_good_history, replay-Solvent}
use soro_lend.Examples.World.{
  written, World, start, supply_laws, borrow_laws, collateral_laws, proposal, proposal_found,
}
use soro_lend.Examples.Services.{cell, settings}
use soro_lend.Examples.Events.{supplied, repaid}
use soro_lend.Examples.Requests.{noon, too_much, sixty, start-Solvent}

abbrev awake : Server World cell
awake = record { db = start; cache = none; block = 10 }

-- A withdrawal that is refused, a deposit, a poll with two events, a liquidation, and the timers.
abbrev busy : List Happening
busy =
    request noon too_much
    ∷ request noon (collateral (CollateralRequest.deposit sixty))
    ∷ poll (supplied ∷ repaid ∷ [])
    ∷ liquidation 7 (codes "GB") (codes "u1") (codes "USDC") (codes "XLM")
    ∷ scan 8
    ∷ refresh 9
    ∷ accrual
    ∷ snapshot
    ∷ []

printed : (n : ℕ) → natural_or_none (bigint (to_text (pos (n / 100)))) ≡ true
printed n = rw (bigint-to_text (pos (n / 100))) refl

prints : PrintsNatural World bigint
prints x = printed (World.num.max (World.num.literal 0 0) x)

busy_good : is_good_history busy ≡ true
unfolding bigint
busy_good = refl

replay-Solvent_example : Solvent World bigint (replay cell settings (λ k. k) World busy awake).db
replay-Solvent_example =
    replay-Solvent World bigint supply_laws borrow_laws collateral_laws prints cell settings
      (λ k. k) busy awake busy_good start-Solvent

replay-assets_example : (replay cell settings (λ k. k) World busy awake).db.assets ≡ start.assets
replay-assets_example = replay-assets World cell settings (λ k. k) busy awake

status_laws : StatusLaws World.proposals (λ p. p)
status_laws = record {
  found_id = λ i t {p} h. text_eq_sound p.id i (first_sound (λ q. text_eq q.id i) t h);
  found-create = λ r t {r'} {t'} i e new truthy.
      let (_, after) = written e in
      let differs : text_eq r.id i ≡ false = elim (Bool-cases (text_eq r.id i)) [
        | inl same ↦ cc (ap is_truthy (text_eq_sound r.id i same), new, truthy)
        | inr other ↦ other
      ] in
      rw after (first-put_id (λ p. p.id) r t i ∙ rw differs refl);
  found-save = λ r t {r'} {t'} i e truthy.
      let (same, after) = written e in rw (same, after) (first-put_id (λ p. p.id) r t i);
  found-update = λ i j f t {t'} {p} same e h.
      let after : t' ≡ change (λ q. text_eq q.id i) f t = ground arith in
      rw after (first-change_id (λ p. p.id) i j f t same h);
  saved_status = λ r t {r'} {t'} e. let (same, _) = written e in rw same;
  keeps_status = λ p. refl;
}

-- A vote, the end of the ballot, the execution, a deposit and a scan.
abbrev decided : List Happening
decided =
    request noon (governance (GovernanceRequest.cast_vote yea))
    ∷ request noon (governance (GovernanceRequest.finalize_proposal (codes "p1")))
    ∷ request noon (collateral (CollateralRequest.deposit sixty))
    ∷ request noon (governance (GovernanceRequest.execute_proposal (codes "p1")))
    ∷ scan 8
    ∷ []

replay-⟶*_example :
    (q : Proposal) × (proposal_by_id World
        (codes "p1")
        (replay cell settings (λ k. k) World decided awake).db
      ≡ some q)
    × (proposal.status ⟶* q.status)
replay-⟶*_example =
    replay-⟶* World status_laws cell settings (λ k. k) decided awake (codes "p1") refl refl
      proposal_found

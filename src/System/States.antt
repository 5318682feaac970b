-- ===== src/System/States.antt =====
-- A proposal over histories: it is never lost, and its state moves along the edges only.
use soro_lend.Prelude.{◌≡◌, refl, Bool, true, ◌&&◌, List, [], ◌∷◌, ℕ, some}
use soro_lend.Text.{Text, is_truthy}
use soro_lend.Schema.{Proposal}
use soro_lend.Runtime.{Result, ok, err}
use soro_lend.Store.{Env, Db, Action, proposal_by_id, bind_pure-db}
use soro_lend.Auth.{Redis, Settings}
use soro_lend.Governance
use soro_lend.Governance.History.{◌⟶*◌, StatusLaws, Advances, same-Advances, Advances-trans}
use soro_lend.Liquidation.Frame.{liquidate-KeepsRest, scan_and_liquidate-KeepsRest}
use soro_lend.Oracle.Updates.{refresh_prices_keeps}
use soro_lend.Indexer.Poll.{index_events}
use soro_lend.Http.Controllers.{
  Reply, lending, borrowing, collateral, governance, analytics, auth, health, ready,
  GovernanceRequest, proposal, vote, serve_governance, serve,
}
use soro_lend.Http.Controllers.Reads.{governance_keeps, analytics_keeps}
use soro_lend.Http.Controllers.History.{good_both}
use soro_lend.System.{
  Server, Happening, request, liquidation, scan, refresh, accrual, snapshot, poll, happen, replay,
}
use soro_lend.System.Timers.{sync_interest_accrual-KeepsAll, snapshot_markets-KeepsAll}
use soro_lend.System.Proposals.{unmoved}
use soro_lend.System.Proposals.Edges.{activate-Advances, finalize-Advances, execute-Advances}
use soro_lend.System.Proposals.Ballots.{create_proposal-Advances, cast_vote-Advances}
use soro_lend.System.Proposals.Others.{
  lending-proposals, borrowing-proposals, collateral-proposals, process_events-proposals,
}

-- The path of a request names a proposal: `:id` does not match an empty text.
abbrev names_proposal : GovernanceRequest → Bool
names_proposal (GovernanceRequest.activate_proposal id) = is_truthy id
names_proposal (GovernanceRequest.finalize_proposal id) = is_truthy id
names_proposal (GovernanceRequest.execute_proposal id) = is_truthy id
names_proposal _ = true

abbrev pub is_routed : Happening → Bool
is_routed (request o (governance r)) = names_proposal r
is_routed _ = true

abbrev pub are_routed : List Happening → Bool
are_routed [] = true
are_routed (h ∷ hs) = is_routed h && are_routed hs

module _ (E : Env) {read_back : Proposal → Proposal} (laws : StatusLaws E.proposals read_back) where
  replied-Advances :
      {A : Type 0} (m : Action E A) (f : A → Reply) (db : Db E)
      → Advances E.proposals db.proposals (m db).1.proposals
      → Advances E.proposals db.proposals
          (elim (m db).0 as (λ _. Result Reply × Db E) [
            | ok a ↦ (ok (f a), (m db).1)
            | err e ↦ (err e, (m db).1)
          ]).1.proposals
  replied-Advances m f db h = rw (bind_pure-db m f db) h

  governance-Advances :
      (now : ℕ) (r : GovernanceRequest) (db : Db E)
      → names_proposal r ≡ true
      → Advances E.proposals db.proposals (serve_governance E now r db).1.proposals
  unfolding serve_governance
  governance-Advances now GovernanceRequest.get_proposals db named = unmoved E db db refl
  governance-Advances now (GovernanceRequest.get_proposal id) db named =
      unmoved E db _ (governance_keeps E now (GovernanceRequest.get_proposal id) db refl)
  governance-Advances now (GovernanceRequest.create_proposal dto) db named =
      replied-Advances (Governance.create_proposal E dto) proposal db
        (create_proposal-Advances E laws dto db)
  governance-Advances now (GovernanceRequest.cast_vote dto) db named =
      replied-Advances (Governance.cast_vote E dto) vote db (cast_vote-Advances E laws dto db)
  governance-Advances now (GovernanceRequest.get_voting_power address) db named =
      unmoved E db db refl
  governance-Advances now (GovernanceRequest.activate_proposal id) db named =
      replied-Advances (Governance.activate_proposal E id) proposal db
        (activate-Advances E laws id db named)
  governance-Advances now (GovernanceRequest.finalize_proposal id) db named =
      replied-Advances (Governance.finalize_proposal E id) proposal db
        (finalize-Advances E laws id db named)
  governance-Advances now (GovernanceRequest.execute_proposal id) db named =
      replied-Advances (Governance.execute_proposal E now id) proposal db
        (execute-Advances E laws now id db named)

  module _ (R : Redis) (s : Settings) (sign : Text → Text) where
    -- Whatever happens leaves the table of proposals alone, or is a request of the governance.
    happen-Advances :
        (h : Happening) (v : Server E R)
        → is_routed h ≡ true
        → Advances E.proposals v.db.proposals (happen R s sign E h v).db.proposals
    unfolding happen index_events serve
    happen-Advances (request o (governance r)) v routed = governance-Advances o.now r v.db routed
    happen-Advances (request o (lending r)) v routed =
        same-Advances E.proposals v.db.proposals _ (lending-proposals E r v.db)
    happen-Advances (request o (borrowing r)) v routed =
        same-Advances E.proposals v.db.proposals _ (borrowing-proposals E r v.db)
    happen-Advances (request o (collateral r)) v routed =
        same-Advances E.proposals v.db.proposals _ (collateral-proposals E r v.db)
    happen-Advances (request o (analytics r)) v routed =
        unmoved E v.db _ (analytics_keeps E o r v.db)
    happen-Advances (request o (auth r)) v routed = unmoved E v.db v.db refl
    happen-Advances (request o health) v routed = unmoved E v.db v.db refl
    happen-Advances (request o ready) v routed = unmoved E v.db v.db refl
    happen-Advances (liquidation now key id debt_code collateral_code) v routed =
        same-Advances E.proposals v.db.proposals _
          (liquidate-KeepsRest E now key id debt_code collateral_code v.db).4
    happen-Advances (scan now) v routed =
        same-Advances E.proposals v.db.proposals _ (scan_and_liquidate-KeepsRest E now v.db).4
    happen-Advances (refresh now) v routed = unmoved E v.db _ (refresh_prices_keeps E now v.db)
    happen-Advances accrual v routed =
        same-Advances E.proposals v.db.proposals _ (sync_interest_accrual-KeepsAll E v.db).4
    happen-Advances snapshot v routed =
        same-Advances E.proposals v.db.proposals _ (snapshot_markets-KeepsAll E v.db).4
    happen-Advances (poll events) v routed =
        same-Advances E.proposals v.db.proposals _ (process_events-proposals E events v.db)

    -- Over any history every proposal stays, and moves along the edges.
    replay-Advances :
        (hs : List Happening) (v : Server E R)
        → are_routed hs ≡ true
        → Advances E.proposals v.db.proposals (replay R s sign E hs v).db.proposals
    unfolding replay
    replay-Advances [] v routed = unmoved E v.db v.db refl
    replay-Advances (h ∷ hs) v routed =
        let (now, later) = good_both (is_routed h) (are_routed hs) routed in
        let v' = happen R s sign E h v in
        Advances-trans E.proposals v.db.proposals v'.db.proposals
          (replay R s sign E hs v').db.proposals (happen-Advances h v now)
          (replay-Advances hs v' later)

    -- Where the table of proposals has the laws of a table keyed by a text that is not empty: over any
    -- history of requests, whose paths name the proposals by such texts, of timers, liquidations and
    -- contract events, failed ones included, a proposal stays in the table, and its state goes from
    -- Pending to Active, from Active to Succeeded or Defeated, from Succeeded to Executed, and along
    -- no other edge.
    pub replay-⟶* :
        (hs : List Happening) (v : Server E R) (id : Text) {p : Proposal}
        → are_routed hs ≡ true
        → is_truthy id ≡ true
        → proposal_by_id E id v.db ≡ some p
        → (q : Proposal) × (proposal_by_id E id (replay R s sign E hs v).db ≡ some q)
          × (p.status ⟶* q.status)
    replay-⟶* hs v id {p} routed truthy found = replay-Advances hs v routed id p truthy found

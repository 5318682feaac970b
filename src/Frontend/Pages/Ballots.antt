-- ===== src/Frontend/Pages/Ballots.antt =====
-- GovernanceComponent (frontend/src/app/features/governance), as a function of the store.
use soro_lend.Prelude.{Bool, true, false, List, [], ◌∷◌, ◌++◌}
use soro_lend.Text.{Text, codes, truthy}
use soro_lend.Runtime.{Number}
use soro_lend.Schema.{ProposalStatus, pending, active, succeeded, defeated, executed}
use soro_lend.Frontend.Models.{Proposal}
use soro_lend.Frontend.Reducers.{State}
use soro_lend.Frontend.Selectors.{
  select_proposals, select_voting_power, select_governance_loading, select_governance_error,
}
use soro_lend.Frontend.Html.{
  Node, votes, shown, button, classed, plain_element, text_element, each, when,
}
use soro_lend.Frontend.Pages.{Pipes, page_header, page, panel, error_line}

module _ {N : Number} (pipes : Pipes N) where
  open pipes use {currency, percent, decimal}

  abbrev pub status_text : ProposalStatus → Text
  status_text pending = codes "Pending"
  status_text active = codes "Active"
  status_text succeeded = codes "Succeeded"
  status_text defeated = codes "Defeated"
  status_text executed = codes "Executed"

  -- The two buttons of a proposal. They are enabled whatever its status.
  abbrev pub vote_button : Text → Bool → Text → Node
  vote_button id support label =
      button (record { disabled = false; press = votes id support; label = label })

  abbrev pub proposal_panel : Proposal → Node
  proposal_panel p = panel (
      classed (codes "div") (codes "proposal-row") (
        plain_element (codes "div") (
          text_element (codes "h2") p.title
          ∷ classed (codes "p") (codes "muted") (shown (status_text p.status) ∷ [])
          ∷ [])
        ∷ plain_element (codes "div")
            (vote_button p.id true (codes "For") ∷ vote_button p.id false (codes "Against") ∷ [])
        ∷ [])
      ∷ text_element (codes "p") p.description
      ∷ classed (codes "div") (codes "metric") (
          text_element (codes "span") (codes "For " ++ decimal p.for_votes)
          ∷ text_element (codes "span") (codes "Against " ++ decimal p.against_votes)
          ∷ [])
      ∷ [])

  -- `@for … @empty`
  abbrev pub proposal_panels : List Proposal → List Node
  proposal_panels [] =
      classed (codes "article") (codes "panel muted") (shown (codes "No proposals available") ∷ [])
      ∷ []
  proposal_panels (p ∷ ps) = proposal_panel p ∷ each proposal_panel ps

  -- GovernanceComponent
  unfoldable pub governance_page : State N → Node
  governance_page s = page (
      page_header (codes "Governance")
        (codes "Vote on protocol proposals with your SoroLend voting power.")
        (text_element (codes "strong") (codes "Voting power " ++ decimal (select_voting_power s))
          ∷ [])
      ∷ (when (select_governance_loading s)
            (classed (codes "p") (codes "muted") (shown (codes "Loading governance data...") ∷ []))
          ++ (proposal_panels (select_proposals s)
              ++ error_line (truthy (select_governance_error s)))))

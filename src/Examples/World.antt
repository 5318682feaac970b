-- ===== src/Examples/World.antt =====
-- A world in which the laws hold: numbers of two decimals, tables that are lists, and a database with
-- a few rows.
use soro_lend.Prelude.{
  ℕ, ◌+◌, ◌-◌, ◌*◌, ◌/◌, ◌^◌, ◌≡◌, refl, ◌∙◌, true, Option, none, some, [], ◌∷◌, arith,
  if◌then◌else◌, ltb, leb, ◌==◌,
}
use soro_lend.Prelude.Int.{ℤ, pos, negsuc}
use soro_lend.Text.{Text, codes, text_eq, text_eq_refl, text_eq_sound}
use soro_lend.Text.Decimal.{bigint, to_text}
use soro_lend.Runtime.{Number}
use soro_lend.Schema.{
  User, Asset, SupplyPosition, BorrowPosition, CollateralPosition, Proposal, Vote, active, for_it,
}
use soro_lend.Store.{Env, Db, user_by_key, active_asset, borrow_of, collateral_of, proposal_by_id}
use soro_lend.Store.Positions.{Positions, PositionLaws, has_key}
use soro_lend.Lending.Ledger.{SupplyLaws}
use soro_lend.Borrowing.Debts.{BorrowLaws}
use soro_lend.Collateral.Balances.{CollateralLaws}
use soro_lend.Governance.Tallies.{ProposalLaws}
use soro_lend.Governance.Votes.{FindsVotes}
use soro_lend.Examples.ListTable.{
  change, list_table, first_sound, first-change, same_keys, first-put,
}

abbrev whole : Option ℤ → ℕ
whole none = 0
whole (some (pos n)) = n * 100
whole (some (negsuc n)) = 0

-- Numbers in hundredths, not negative.
abbrev pub hundredths : Number
hundredths = record {
  Value = ℕ;
  literal = λ m k. m * 100 / 10 ^ k;
  parse_float = λ t. whole (bigint t);
  of_ℤ = λ z. whole (some z);
  add = λ a b. a + b;
  sub = λ a b. a - b;
  mul = λ a b. a * b / 100;
  div = λ a b. a * 100 / b;
  min = λ a b. if leb a b then a else b;
  max = λ a b. if leb a b then b else a;
  abs = λ a. a;
  lt = ltb;
  le = leb;
  eq = λ a b. a == b;
  infinity = 1000000000;
  is_finite = λ a. ltb a 1000000000;
  number = λ t. whole (bigint t);
  to_fixed = λ d a. to_text (pos (a / 100));
  to_string = λ a. to_text (pos (a / 100));
}

abbrev pub World : Env
World = record {
  num = hundredths;
  users = list_table (λ a b. text_eq a.id b.id);
  assets = list_table (λ a b. text_eq a.id b.id);
  supplies = list_table (same_keys (λ p. p.user_id) (λ p. p.asset_id));
  borrows = list_table (same_keys (λ p. p.user_id) (λ p. p.asset_id));
  collaterals = list_table (same_keys (λ p. p.user_id) (λ p. p.asset_id));
  liquidations = list_table (λ a b. text_eq a.id b.id);
  snapshots = list_table (λ a b. text_eq a.id b.id);
  feeds = list_table (λ a b. text_eq a.id b.id);
  proposals = list_table (λ a b. text_eq a.id b.id);
  votes = list_table (same_keys (λ v. v.proposal_id) (λ v. v.voter_id));
}

pub written :
    {Row Rows : Type 0} {r r' : Row} {t t' : Rows}
    → ◌≡◌ {A = Option (Row × Rows)} (some (r, t)) (some (r', t'))
    → (r' ≡ r) × (t' ≡ t)
written e = (ground arith, ground arith)

-- A table of positions that is a list with one row for each user and asset.
module _ {Row : Type 0} (id user_id asset_id amount : Row → Text) where
  abbrev pub listed : Positions Row
  listed = record {
    table = list_table (same_keys user_id asset_id);
    id = id;
    user_id = user_id;
    asset_id = asset_id;
    amount = amount;
    value = bigint;
  }

  pub listed_laws : PositionLaws listed (λ r. r)
  listed_laws = record {
    found-key = λ u a t {r} h. first_sound (has_key user_id asset_id u a) t h;
    found-save = λ r t {r'} {t'} fits e u a.
        let (same, after) = written e in rw (same, after) (first-put user_id asset_id r t u a);
    value-bigint = λ t {m} e. e;
    read_amount = λ r t {r'} {t'} e. let (same, after) = written e in rw same;
  }

pub supply_laws : SupplyLaws World bigint (λ r. r)
supply_laws = listed_laws (λ p. p.id) (λ p. p.user_id) (λ p. p.asset_id) (λ p. p.amount)

pub borrow_laws : BorrowLaws World bigint (λ r. r)
borrow_laws = listed_laws (λ p. p.id) (λ p. p.user_id) (λ p. p.asset_id) (λ p. p.amount)

pub collateral_laws : CollateralLaws World bigint (λ r. r)
collateral_laws = listed_laws (λ p. p.id) (λ p. p.user_id) (λ p. p.asset_id) (λ p. p.amount)

pub proposal_laws : ProposalLaws World.proposals (λ p. p)
proposal_laws = record {
  found_id = λ i t {p} h. text_eq_sound p.id i (first_sound (λ q. text_eq q.id i) t h);
  found-update = λ i f t {t'} {p} same e h.
      let after : t' ≡ change (λ q. text_eq q.id i) f t = ground arith in
      rw after (first-change (λ q. text_eq q.id i) f t (λ q. rw (same q)) h);
  keeps_status = λ p. refl;
}

pub finds_votes : FindsVotes World.votes
finds_votes r r' t t' e =
    let (same, after) = written e in
    (
      r,
      rw after (
          first-put (λ v. v.proposal_id) (λ v. v.voter_id) r t r.proposal_id r.voter_id
          ∙ rw (text_eq_refl r.proposal_id, text_eq_refl r.voter_id)),
    )

-- The rows.
abbrev pub alice : User
alice = record {
  id = codes "u1";
  public_key = codes "GA";
  nonce = none;
  nonce_expires_at = none;
  last_login_at = none;
}

abbrev pub bob : User
bob = record alice { id = codes "u2"; public_key = codes "GB" }

abbrev pub xlm : Asset
xlm = record {
  id = codes "a1";
  code = codes "XLM";
  issuer = none;
  contract_id = codes "K1";
  decimals = 7;
  oracle_price = some (codes "2");
  oracle_updated_at = none;
  ltv_ratio = some (codes "1");
  liquidation_threshold = some (codes "1");
  liquidation_penalty = none;
  reserve_factor = none;
  is_active = true;
}

abbrev pub usdc : Asset
usdc = record xlm { id = codes "a2"; code = codes "USDC"; oracle_price = some (codes "1") }

abbrev pub supply_of_alice : SupplyPosition
supply_of_alice = record {
  id = codes "s1";
  user_id = codes "u1";
  asset_id = codes "a1";
  amount = codes "50";
  shares = codes "50";
  supply_index = codes "1";
}

abbrev pub debt_of_alice : BorrowPosition
debt_of_alice = record {
  id = codes "b1";
  user_id = codes "u1";
  asset_id = codes "a2";
  amount = codes "30";
  interest_index = codes "1";
  accrued_interest = codes "0";
}

abbrev pub collateral_of_alice : CollateralPosition
collateral_of_alice = record {
  id = codes "c1";
  user_id = codes "u1";
  asset_id = codes "a1";
  amount = codes "80";
}

abbrev pub proposal : Proposal
proposal = record {
  id = codes "p1";
  proposal_id = 1;
  title = codes "T";
  description = codes "D";
  proposer = codes "GA";
  status = active;
  for_votes = codes "0";
  against_votes = codes "0";
  quorum = codes "2";
  voting_power_snapshot = codes "0";
  targets = none;
  values = none;
  signatures = none;
  calldatas = none;
  start_block = none;
  end_block = none;
  executed_at = none;
}

abbrev pub vote_of_bob : Vote
vote_of_bob = record {
  id = codes "v1";
  proposal_id = codes "p1";
  voter_id = codes "u2";
  vote = for_it;
  voting_power = codes "5";
  reason = none;
}

abbrev pub start : Db World
start = record {
  users = alice ∷ bob ∷ [];
  assets = xlm ∷ usdc ∷ [];
  supplies = supply_of_alice ∷ [];
  borrows = debt_of_alice ∷ [];
  collaterals = collateral_of_alice ∷ [];
  liquidations = [];
  snapshots = [];
  feeds = [];
  proposals = proposal ∷ [];
  votes = vote_of_bob ∷ [];
}

pub xlm_found : active_asset World (codes "XLM") start ≡ some xlm
unfolding text_eq
xlm_found = refl

pub usdc_found : active_asset World (codes "USDC") start ≡ some usdc
unfolding text_eq
usdc_found = refl

pub alice_found : user_by_key World (codes "GA") start ≡ some alice
unfolding text_eq
alice_found = refl

pub bob_found : user_by_key World (codes "GB") start ≡ some bob
unfolding text_eq
bob_found = refl

pub collateral_found :
    collateral_of World (codes "u1") (codes "a1") start ≡ some collateral_of_alice
unfolding text_eq
collateral_found = refl

pub debt_found : borrow_of World (codes "u1") (codes "a2") start ≡ some debt_of_alice
unfolding text_eq
debt_found = refl

pub proposal_found : proposal_by_id World (codes "p1") start ≡ some proposal
unfolding text_eq
proposal_found = refl

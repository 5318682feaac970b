-- ===== src/Frontend/Html.antt =====
-- What a template renders to (frontend/src/app, the `template` of each component): elements with
-- their attributes, texts, and buttons with the handler of their click. Angular itself (change
-- detection, tracking, the names of events) is not modelled.
use soro_lend.Prelude.{Bool, true, false, List, [], ◌∷◌, ◌++◌}
use soro_lend.Text.{Text, codes}
use soro_lend.Frontend.Actions.{Kind}

-- The handler of a button: `submit(kind)`, `vote(id, support)`, `connect()`.
pub data Press : Type 0 where
  submits : Kind → Press
  votes : Text → Bool → Press
  connects : Press

-- A button: whether it is disabled, its handler, its label.
pub record Button : Type 0 where
  pub disabled : Bool
  pub press : Press
  pub label : Text

abbrev pub Attributes : Type 0
Attributes = List (Text × Text)

mutual
  pub data Node : Type 0 where
    shown : Text → Node
    element : Text → Attributes → Nodes → Node
    button : Button → Node

  pub data Nodes : Type 0 where
    nil : Nodes
    cons : Node → Nodes → Nodes

abbrev pub nodes : List Node → Nodes
nodes [] = nil
nodes (x ∷ xs) = cons x (nodes xs)

-- An element with a class, and one with none.
abbrev pub classed : Text → Text → List Node → Node
classed tag class children = element tag ((codes "class", class) ∷ []) (nodes children)

abbrev pub plain_element : Text → List Node → Node
plain_element tag children = element tag [] (nodes children)

abbrev pub text_element : Text → Text → Node
text_element tag t = plain_element tag (shown t ∷ [])

-- `@for (x of xs) { … }`
unfoldable pub each : {A : Type 0} → (A → Node) → List A → List Node
each row [] = []
each row (x ∷ xs) = row x ∷ each row xs

-- `@if (t; as x) { … }`
abbrev pub when : Bool → Node → List Node
when true x = x ∷ []
when false x = []

-- The buttons of a page, in the order of the document.
unfoldable mutual
  pub buttons : Node → List Button
  buttons (shown t) = []
  buttons (element tag attributes children) = buttons_in children
  buttons (button b) = b ∷ []

  pub buttons_in : Nodes → List Button
  buttons_in nil = []
  buttons_in (cons x xs) = buttons x ++ buttons_in xs

-- ===== src/Http.antt =====
-- What goes over the wire, and the common parts of the server (backend/src/common).
pub mod Filter
pub mod Requests
pub mod Controllers
pub mod Routes
use soro_lend.Prelude.{Bool, true, Option, none, some, List, if◌then◌else◌}
use soro_lend.Text.{Text, codes, text_eq}

-- A parsed JSON value; a number is the text that it was written as.
mutual
  pub data Json : Type 0 where
    null : Json
    boolean : Bool → Json
    number : Text → Json
    text : Text → Json
    array : Items → Json
    object : Fields → Json

  pub data Items : Type 0 where
    no_items : Items
    item : Json → Items → Items

  pub data Fields : Type 0 where
    no_fields : Fields
    with : Text → Json → Fields → Fields

abbrev pub lookup : Text → Fields → Option Json
lookup name no_fields = none
lookup name (with key value rest) = if text_eq key name then some value else lookup name rest

-- `value.name`: none is undefined.
abbrev pub member : Text → Json → Option Json
member name (object fields) = lookup name fields
member name _ = none

-- `TransformInterceptor.intercept`: what a controller returns goes out inside another object.
unfoldable pub intercept : Text → Json → Json
intercept timestamp data_ = object (
    with (codes "success") (boolean true)
      (with (codes "data") data_ (with (codes "timestamp") (text timestamp) no_fields)))

-- ===== src/Registry/Js.antt =====
-- The values of a JavaScript object literal: what the files of constants/ consist of.
use pricefeeding.Prelude.{ℕ, String, Bool}

mutual
  pub data JsValue : Type 0 where
    text : String → JsValue
    number : ℕ → JsValue
    bool : Bool → JsValue
    array : Items → JsValue
    object : Fields → JsValue

  pub data Items : Type 0 where
    end_items : Items
    ◌⨟◌ : JsValue → Items → Items

  pub data Field : Type 0 where
    ◌∶◌ : String → JsValue → Field

  pub data Fields : Type 0 where
    end_fields : Fields
    ◌⨾◌ : Field → Fields → Fields

infixr 50 ◌⨟◌
infixr 50 ◌⨾◌
infix 55 ◌∶◌

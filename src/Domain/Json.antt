-- ===== src/Domain/Json.antt =====
-- `dict[str, Any]` and the other values that a JSON column or a decoded access token holds.
-- Floats are left out.
use ch_tech_landing_page_bac.Base.{Bool}
use ch_tech_landing_page_bac.Base.Int.{ℤ}
use ch_tech_landing_page_bac.Text.{Str}

mutual
  pub data Json : Type 0 where
    null : Json
    boolean : Bool → Json
    int : ℤ → Json
    str : Str → Json
    arr : Items → Json
    obj : Fields → Json

  pub data Items : Type 0 where
    nil : Items
    cons : Json → Items → Items

  pub data Fields : Type 0 where
    end : Fields
    field : Str → Json → Fields → Fields

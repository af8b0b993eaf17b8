-- ===== src/Json/Defs.antt =====
-- The JSON values of core/json.ts (JsonPrimitive, JsonArray, JsonObject). A text is a sequence of
-- Unicode scalar values, so an unpaired surrogate is no value here; a container is a finite tree,
-- so neither are proxies, accessors, sparse arrays and cycles. Numbers are integers other than -0.
use peas_engine.Prelude.{ℕ, String, Bool, Option, none, some}

-- `negsuc n` is -(n + 1).
pub data ℤ : Type 0 where
  pos : ℕ → ℤ
  negsuc : ℕ → ℤ

mutual
  pub data Json : Type 0 where
    null : Json
    bool : Bool → Json
    num : ℤ → Json
    str : String → Json
    arr : Items → Json
    obj : Fields → Json

  pub data Items : Type 0 where
    nil : Items
    cons : Json → Items → Items

  pub data Fields : Type 0 where
    end : Fields
    field : String → Json → Fields → Fields

abbrev pub nat : ℕ → Json
nat n = num (pos n)

-- A text or null.
abbrev pub nullable : Option String → Json
nullable none = null
nullable (some s) = str s

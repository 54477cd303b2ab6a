-- ===== src/Domain/Json.antt =====
-- What a `dict[str, Any]` of src/invoice_hub/domain/models.py may hold: a JSON value, as the stores
-- write it. The text of a number stands for it.
use invoice_hub.Prelude.{String, Bool}

mutual
  pub data Json : Type 0 where
    null : Json
    flag : Bool → Json
    number_text : String → Json
    string_value : String → Json
    array : JsonItems → Json
    object : JsonFields → Json

  pub data JsonItems : Type 0 where
    no_items : JsonItems
    item_and : Json → JsonItems → JsonItems

  pub data JsonFields : Type 0 where
    no_fields : JsonFields
    field_and : String → Json → JsonFields → JsonFields

-- ===== src/Websocket/Json.antt =====
-- The values that `json.loads` returns, and `dict.get` on an object. A number is kept as its text.
use encrypt_chat_app.Base.{Bool, Option, Text, if◌then◌else◌, none, some, text_eq, true, ◌&&◌}

mutual
  pub data Json : Type 0 where
    null : Json
    bool : Bool → Json
    num : Text → Json
    str : Text → Json
    arr : Items → Json
    obj : Fields → Json

  pub data Items : Type 0 where
    nil : Items
    cons : Json → Items → Items

  pub data Fields : Type 0 where
    end : Fields
    field : Text → Json → Fields → Fields

-- `fields.get(key)`
unfoldable pub get : Text → Fields → Option Json
get key end = none
get key (field k v rest) = if text_eq k key then some v else get key rest

-- Every key of the object passes the test.
unfoldable pub all_keys : (Text → Bool) → Fields → Bool
all_keys p end = true
all_keys p (field k v rest) = p k && all_keys p rest

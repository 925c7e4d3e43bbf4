-- ===== src/Links/Attr.antt =====
-- The attributes of a link as netlink has them: `name2nla`, `_drill_attr` and `get_if_attr` of the class `Link`
-- of libifstate/link/base.py.
use Prim.Native.Char.{code}
use ifstate.Prelude.{
  ℕ, String, Bool, true, false, ◌&&◌, ◌||◌, Option, none, some, List, [], ◌∷◌, ◌==◌, if◌then◌else◌,
  text_key, number_key,
}
use ifstate.Value.{Value, null, num, text, value_key}

mutual
  -- the value of an attribute, or further attributes
  pub data Attr : Type 0 where
    value : Value → Attr
    nested : Attrs → Attr

  pub data Attrs : Type 0 where
    empty : Attrs
    attr : String → Attr → Attrs → Attrs

-- A message about a link, with the two values that `apply` puts in and the alternative names.
pub record Iface : Type 0 where
  pub index : ℕ
  pub state : String
  pub permaddr : Option String
  pub businfo : Option String
  pub altnames : List String
  pub attrs : Attrs

-- `s + t`
unfoldable pub append : String → String → String
append String.[] t = t
append (String.◌∷◌ c s) t = String.◌∷◌ c (append s t)

unfoldable pub starts_with : String → String → Bool
starts_with String.[] s = true
starts_with (String.◌∷◌ c p) String.[] = false
starts_with (String.◌∷◌ c p) (String.◌∷◌ d s) = (code c == code d) && starts_with p s

-- `s.find(p) != -1`
unfoldable pub occurs : String → String → Bool
unfolding starts_with
occurs p String.[] = starts_with p String.[]
occurs p (String.◌∷◌ c s) = starts_with p (String.◌∷◌ c s) || occurs p s

-- `name2nla`; `upper` is `str.upper`
unfoldable pub name2nla : (String → String) → String → String
unfolding append occurs
name2nla upper name =
    if occurs "IFLA_" (upper name) then upper name else append "IFLA_" (upper name)

-- `get_attr` of a message
unfoldable pub get_attr : String → Attrs → Option Attr
get_attr key empty = none
get_attr key (attr k v rest) = if k == key then some v else get_attr key rest

-- `_drill_attr`; a value has no attributes to go on with
unfoldable pub drill_attr : List String → Attrs → Option Attr
unfolding get_attr
drill_attr [] d = none
drill_attr (key ∷ []) d = get_attr key d
drill_attr (key ∷ next ∷ keys) d = elim (get_attr key d) [
  | some (nested inner) ↦ drill_attr (next ∷ keys) inner
  | _ ↦ none
]

abbrev text_attr : Option String → Option Attr
text_attr none = none
text_attr (some s) = some (value (text s))

-- the message, then its link info, then the data of that
unfoldable pub find_nla : String → Attrs → Option Attr
unfolding get_attr
find_nla nla attrs = elim (get_attr nla attrs) [
  | some v ↦ some v
  | none ↦ elim (get_attr "IFLA_LINKINFO" attrs) [
    | some (nested info) ↦ elim (get_attr nla info) [
      | some v ↦ some v
      | none ↦ elim (get_attr "IFLA_INFO_DATA" info) [
        | some (nested inner) ↦ get_attr nla inner
        | _ ↦ none
      ]
    ]
    | _ ↦ none
  ]
]

-- `get_if_attr`
unfoldable pub get_if_attr : (String → String) → Iface → String → Option Attr
unfolding drill_attr find_nla name2nla
get_if_attr upper iface key =
    if key == "state"
    then some (value (text iface.state))
    else if key == "permaddr"
    then text_attr iface.permaddr
    else if key == "businfo"
    then text_attr iface.businfo
    else if key == "kind"
    then drill_attr ("IFLA_LINKINFO" ∷ "IFLA_INFO_KIND" ∷ []) iface.attrs
    else find_nla (name2nla upper key) iface.attrs

-- `self.get_if_attr(setting) == value`; nested attributes are equal to no setting
unfoldable pub is_value : Option Attr → Value → Bool
is_value none v = v == null
is_value (some (value w)) v = w == v
is_value (some (nested d)) v = false

-- `(self.get_if_attr(setting) or 0) == value`
unfoldable pub is_index : Option Attr → Value → Bool
is_index none v = v == num 0
is_index (some (value null)) v = v == num 0
is_index (some (value (text String.[]))) v = v == num 0
is_index (some (value w)) v = w == v
is_index (some (nested d)) v = false

-- an attribute that is a text
unfoldable pub attr_text : Option Attr → String
attr_text (some (value (text s))) = s
attr_text _ = ""

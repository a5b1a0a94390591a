-- ===== src/Json.antt =====
-- JavaScript values as the sources meet them: what `JSON.parse` returns, and the `bigint` and
-- `undefined` of values that have not been through JSON. Numbers are the integers: no source under
-- a modelled function holds a fraction. A key stands once in an object that the code builds.
use pl_backend_sdk_demo.Prelude.{
  ℕ, suc, ◌-◌, ◌/◌, ◌%◌, ◌≤◌, ◌||◌, pos, numbers, ◌+◌, ◌≡◌, refl, Bool, true, false, [], ◌∷◌, ◌++◌,
  Option, none, some, ℤ, Text, codes, text_eq, text_eq_iff, big_text, if◌then◌else◌, arith, ltb,
  ◌==◌,
}

mutual
  pub data Json : Type 0 where
    undef : Json
    null : Json
    bool : Bool → Json
    num : ℤ → Json
    big : ℤ → Json
    str : Text → Json
    arr : Items → Json
    obj : Tree → Json

  pub data Items : Type 0 where
    nil : Items
    cons : Json → Items → Items

  -- `Record<string, unknown>`
  pub data Tree : Type 0 where
    end : Tree
    field : Text → Json → Tree → Tree

-- `tree[key]`
unfoldable pub get : Text → Tree → Json
get k end = undef
get k (field j v t) = if text_eq j k then v else get k t

-- `Object.hasOwn(tree, key)`
unfoldable pub has_own : Text → Tree → Bool
has_own k end = false
has_own k (field j v t) = if text_eq j k then true else has_own k t

-- `{ ...tree, [key]: value }`
unfoldable pub put : Text → Json → Tree → Tree
put k v end = field k v end
put k v (field j w t) = if text_eq j k then field j v t else field j w (put k v t)

unfoldable pub length : Items → ℕ
length nil = 0
length (cons v r) = suc (length r)

unfoldable pub filter : (Json → Bool) → Items → Items
filter p nil = nil
filter p (cons v r) = if p v then cons v (filter p r) else filter p r

abbrev pub AllItems : (Json → Type 0) → Items → Type 0
AllItems P nil = Unit {0}
AllItems P (cons v r) = P v × AllItems P r

-- `record.x === "text"` and `record.x !== true`
unfoldable pub is_text : Json → Text → Bool
is_text (str s) t = text_eq s t
is_text _ t = false

unfoldable pub is_true : Json → Bool
is_true (bool b) = b
is_true _ = false

abbrev comma : ℕ
comma = b','

-- What an item that is shown as `shown` adds to a joined array.
abbrev item_text : Json → Text → Text
item_text undef shown = []
item_text null shown = []
item_text _ shown = shown

-- `String(value)`.
unfoldable mutual
  pub show : Json → Text
  show undef = codes "undefined"
  show null = codes "null"
  show (bool true) = codes "true"
  show (bool false) = codes "false"
  show (num z) = big_text z
  show (big z) = big_text z
  show (str s) = s
  show (arr r) = show_items r
  show (obj t) = codes "[object Object]"

  pub show_items : Items → Text
  show_items nil = []
  show_items (cons v nil) = item_text v (show v)
  show_items (cons v (cons w r)) = item_text v (show v) ++ comma ∷ show_items (cons w r)

hex_digit : ℕ → ℕ
hex_digit d = if ltb d 10 then b'0' + d else b'a' + (d - 10)

abbrev backslash : ℕ
backslash = 92

-- One code unit of a JSON string. (Lone surrogates, which are escaped too, are not told apart.)
escape : ℕ → Text
unfolding hex_digit
escape c =
    if c == 34 || c == backslash
    then backslash ∷ c ∷ []
    else if c == 8
    then backslash ∷ b'b' ∷ []
    else if c == 12
    then backslash ∷ b'f' ∷ []
    else if c == 10
    then backslash ∷ b'n' ∷ []
    else if c == 13
    then backslash ∷ b'r' ∷ []
    else if c == 9
    then backslash ∷ b't' ∷ []
    else if ltb c 32
    then codes "\\u00" ++ hex_digit (c / 16) ∷ hex_digit (c % 16) ∷ []
    else c ∷ []

quote_rest : Text → Text
unfolding escape
quote_rest [] = 34 ∷ []
quote_rest (c ∷ s) = escape c ++ quote_rest s

quote : Text → Text
unfolding quote_rest
quote s = 34 ∷ quote_rest s

-- `JSON.stringify(value)`, after the opening bracket; `first` says that nothing stands there yet.
-- An `undefined` field is left out and an `undefined` item is `null`. A `bigint`, at which the
-- language throws, is `none`.
abbrev ◌<+>◌ : Option Text → Option Text → Option Text
none <+> t = none
some s <+> none = none
some s <+> some t = some (s ++ t)

infixr 65 ◌<+>◌
abbrev separator : Bool → Option Text
separator true = some []
separator false = some (comma ∷ [])

unfoldable mutual
  unfolding quote

  pub stringify : Json → Option Text
  stringify undef = some (codes "null")
  stringify null = some (codes "null")
  stringify (bool true) = some (codes "true")
  stringify (bool false) = some (codes "false")
  stringify (num z) = some (big_text z)
  stringify (big z) = none
  stringify (str s) = some (quote s)
  stringify (arr r) = some (b'[' ∷ []) <+> stringify_items true r
  stringify (obj t) = some (b'{' ∷ []) <+> stringify_fields true t

  pub stringify_items : Bool → Items → Option Text
  stringify_items first nil = some (b']' ∷ [])
  stringify_items first (cons v r) = separator first <+> stringify v <+> stringify_items false r

  pub stringify_fields : Bool → Tree → Option Text
  stringify_fields first end = some (b'}' ∷ [])
  stringify_fields first (field k undef t) = stringify_fields first t
  stringify_fields first (field k v t) =
      separator first <+> some (quote k ++ b':' ∷ []) <+> stringify v <+> stringify_fields false t

pub get-put :
    (k j : Text) (v : Json) (t : Tree) → get j (put k v t) ≡ (if text_eq k j then v else get j t)
unfolding get put
get-put k j v end = refl
get-put k j v (field i w t) =
    ground (arith, text_eq_iff i k, text_eq_iff i j, text_eq_iff k j, get-put k j v t)

pub length-filter-le : (p : Json → Bool) (r : Items) → length (filter p r) ≤ length r
unfolding length filter
length-filter-le p nil = omega arith
length-filter-le p (cons v r) = ground (arith, length-filter-le p r)

-- A filter that drops nothing gives the same items.
pub filter_of_length :
    (p : Json → Bool) (r : Items) → length (filter p r) ≡ length r → filter p r ≡ r
unfolding length filter
filter_of_length p nil e = refl
filter_of_length p (cons v r) e = ground (arith, filter_of_length p r, length-filter-le p r)

stringify_test :
    stringify (
      obj (
        field
          (codes "a")
          (arr (cons (num (pos 1)) (cons undef nil)))
          (field (codes "b") undef (field (codes "c") (str (codes "x\n")) end))))
    ≡ some (codes "{\"a\":[1,null],\"c\":\"x\\n\"}")
unfolding stringify numbers
stringify_test = refl

pub get-put_self : (k : Text) (v : Json) (t : Tree) → get k (put k v t) ≡ v
get-put_self k v t = ground (arith, get-put k k v t, text_eq_iff k k)

-- ===== src/Otelsetup/Sanitize.antt =====
-- pkg/otelsetup/logsanitize.go: log records are made valid UTF-8 before they are exported.
use bluebottle.Prelude.{
  ℕ, Bool, true, false, not, ◌&&◌, ◌||◌, List, [], ◌∷◌, Bytes, eqb, all, if◌then◌else◌,
}
pub mod Valid
pub mod Emitted
mod Samples

-- The values of attributes, where `scalar` is one of any other kind.
mutual
  pub data Value : Type 0 where
    string : Bytes → Value
    string_slice : List Bytes → Value
    slice : Items → Value
    dict : Entries → Value
    scalar : Bytes → Value

  pub data Items : Type 0 where
    nil : Items
    item : Value → Items → Items

  pub data Entries : Type 0 where
    end : Entries
    entry : Bytes → Value → Entries → Entries

-- `utf8.ValidString`, `strings.ToValidUTF8` with the replacement character, and which entries the SDK
-- keeps of those that `attribute.MapValue` and `Record.SetAttributes` are given.
pub record Sdk : Type 0 where
  pub valid_string : Bytes → Bool
  pub to_valid : Bytes → Bytes
  pub map_value : Entries → Entries
  pub set_attributes : Entries → Entries

unfoldable pub sanitize_string : Sdk → Bytes → Bytes
sanitize_string sdk s = if sdk.valid_string s then s else sdk.to_valid s

-- The loop over a slice of strings.
unfoldable pub sanitize_strings : Sdk → List Bytes → List Bytes × Bool
unfolding sanitize_string
sanitize_strings sdk [] = ([], false)
sanitize_strings sdk (e ∷ elems) =
    let (out, changed) = sanitize_strings sdk elems in
    let s = sanitize_string sdk e in (s ∷ out, not (eqb s e) || changed)

-- The value as it was, unless something in it has changed.
abbrev pub unless_same : Value → Value → Bool → Value × Bool
unless_same v out changed = if not changed then (v, false) else (out, true)

unfoldable mutual
  unfolding sanitize_strings

  pub sanitize_value : Sdk → Value → Value × Bool
  sanitize_value sdk (string s) =
      if sdk.valid_string s then (string s, false) else (string (sdk.to_valid s), true)
  sanitize_value sdk (string_slice elems) =
      let (out, changed) = sanitize_strings sdk elems in
      unless_same (string_slice elems) (string_slice out) changed
  sanitize_value sdk (slice elems) =
      let (out, changed) = sanitize_items sdk elems in unless_same (slice elems) (slice out) changed
  sanitize_value sdk (dict kvs) =
      let (out, changed) = sanitize_entries sdk kvs in
      unless_same (dict kvs) (dict (sdk.map_value out)) changed
  sanitize_value sdk (scalar s) = (scalar s, false)

  pub sanitize_items : Sdk → Items → Items × Bool
  sanitize_items sdk nil = (nil, false)
  sanitize_items sdk (item e elems) =
      let (sv, c) = sanitize_value sdk e in
      let (out, changed) = sanitize_items sdk elems in (item sv out, c || changed)

  pub sanitize_entries : Sdk → Entries → Entries × Bool
  sanitize_entries sdk end = (end, false)
  sanitize_entries sdk (entry key value kvs) =
      let (sv, c) = sanitize_value sdk value in
      let (out, changed) = sanitize_entries sdk kvs in
      if not (sdk.valid_string key)
      then (entry (sdk.to_valid key) sv out, true)
      else (entry key sv out, c || changed)

-- What the processor reads of a log record.
pub record Record : Type 0 where
  pub body : Value
  pub attributes : Entries

-- The first walk over the attributes, which stops at one that has to change.
unfoldable pub is_dirty : Sdk → Entries → Bool
unfolding sanitize_value
is_dirty sdk end = false
is_dirty sdk (entry key value kvs) =
    let rest = is_dirty sdk kvs in
    if not (sdk.valid_string key) then true else if (sanitize_value sdk value).1 then true else rest

-- The second walk.
unfoldable pub sanitize_attributes : Sdk → Entries → Entries
unfolding sanitize_string sanitize_value
sanitize_attributes sdk end = end
sanitize_attributes sdk (entry key value kvs) =
    entry (sanitize_string sdk key) (sanitize_value sdk value).0 (sanitize_attributes sdk kvs)

-- The record that the next processor gets.
unfoldable pub on_emit : Sdk → Record → Record
unfolding sanitize_value is_dirty sanitize_attributes
on_emit sdk r =
    let (v, changed) = sanitize_value sdk r.body in
    record {
      body = if changed then v else r.body;
      attributes =
          if is_dirty sdk r.attributes
          then sdk.set_attributes (sanitize_attributes sdk r.attributes)
          else r.attributes;
    }

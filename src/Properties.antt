-- ===== src/Properties.antt =====
-- include/mqtt5/protocol/properties.hpp: `properties`, the list of properties of a packet, and
-- `properties_t_base`, what each packet keeps of those that it does not know.
pub mod RoundTrip
pub mod Total
pub mod Fields
use mqtt.Base.{
  ℕ, zero, suc, ◌%◌, ◌^◌, List, [], ◌∷◌, ◌++◌, Bool, true, false, Result, ok, err, out_of_fuel,
  ◌==◌, if◌then◌else◌, length, ◌>>=◌,
}
use mqtt.Wire.Fetcher.{Reader, cspan, consume}
use mqtt.Wire.VarlenInt
use mqtt.Wire.Text.{KeyValuePair}
use mqtt.Property.{Property, Given, make_property, as_pair, key_value}
use mqtt.Property

-- `while(!data_span.empty())`, with fuel for its rounds.
unfoldable pub deserialize_loop : ℕ → List ℕ → Result (List Property)
deserialize_loop fuel [] = ok []
deserialize_loop zero (b ∷ bs) = err out_of_fuel
deserialize_loop (suc fuel) (b ∷ bs) = do
  (prop, data_span) ← Property.deserialize (b ∷ bs)
  props ← deserialize_loop fuel data_span
  ok (prop ∷ props)

-- Each round takes a byte at least, so that as many rounds as there are bytes are enough. The
-- properties are read from a span of their own, and their bytes are consumed at the end.
unfoldable pub deserialize : Reader (List Property)
deserialize data_bytes = do
  (property_data_length, rest) ← VarlenInt.deserialize data_bytes
  data_span ← cspan property_data_length rest
  props ← deserialize_loop (length data_span) data_span
  ok (props, consume property_data_length rest)

-- What `property::serialize` writes for each property in turn.
unfoldable pub serialize_all : List Property → Result (List ℕ)
serialize_all [] = ok []
serialize_all (p ∷ ps) = do
  first ← Property.serialize p
  others ← serialize_all ps
  ok (first ++ others)

-- A first pass counts the bytes in a uint32_t, and a second writes them.
unfoldable pub serialize : List Property → Result (List ℕ)
serialize props = do
  body ← serialize_all props
  prop_len ← VarlenInt.serialize (length body % 2 ^ 32)
  ok (prop_len ++ body)

abbrev pub user_property : ℕ
user_property = 38

-- The search of `add_property`: the value of the first property with the identifier is replaced.
unfoldable pub replace_or_append : Property → List Property → List Property
replace_or_append prop [] = prop ∷ []
replace_or_append prop (p ∷ ps) =
    if p.identifier == prop.identifier
    then record p { value = prop.value } ∷ ps
    else p ∷ replace_or_append prop ps

unfoldable pub add_property : Property → List Property → List Property
add_property prop props =
    if prop.identifier == user_property then props ++ prop ∷ [] else replace_or_append prop props

-- The overload of `add_property` that makes the property.
unfoldable pub add_value : ℕ → Given → List Property → Result (List Property)
add_value id given props = do prop ← make_property id given; ok (add_property prop props)

-- `properties_t_base`
pub record BaseProperties : Type 0 where
  pub user_property : List KeyValuePair
  pub unknown_properties : List Property

abbrev pub no_base : BaseProperties
no_base = record { user_property = []; unknown_properties = [] }

unfoldable pub handle_property : Property → BaseProperties → Result BaseProperties
handle_property prop base =
    if prop.identifier == user_property
    then (do
      kv ← as_pair prop.value
      ok (record base { user_property = base.user_property ++ kv ∷ [] }))
    else ok (record base { unknown_properties = base.unknown_properties ++ prop ∷ [] })

unfoldable pub add_user_properties : List KeyValuePair → List Property → Result (List Property)
add_user_properties [] props = ok props
add_user_properties (kv ∷ kvs) props = do
  props' ← add_value user_property (key_value kv) props
  add_user_properties kvs props'

unfoldable pub add_all : List Property → List Property → List Property
add_all [] props = props
add_all (p ∷ ps) props = add_all ps (add_property p props)

unfoldable pub add_base_properties : BaseProperties → List Property → Result (List Property)
add_base_properties base props = do
  props' ← add_user_properties base.user_property props
  ok (add_all base.unknown_properties props')

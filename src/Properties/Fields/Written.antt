-- ===== src/Properties/Fields/Written.antt =====
-- What a struct writes: its fields, its user properties and the properties that it did not know.
use mqtt.Base.{
  ℕ, ◌≡◌, ◌≢◌, ap, List, [], ◌∷◌, ◌++◌, map, arith, ok, append_assoc, append-nil, All, All-append,
  ◌>>=◌, sym,
}
use mqtt.Wire.Text.{KeyValuePair}
use mqtt.Property.{Property, activate_id, assign_value, make_property}
use mqtt.Properties.{
  user_property, add_property, add_value, add_user_properties, add_all, add_base_properties,
  BaseProperties,
}
use mqtt.Properties.Fields.{Field, add_fields}
use mqtt.Properties.Fields.Out.{
  stored_fields, user, Avoids, add_property-fresh, Distinct, FieldsAccept, FieldsAvoid,
  add_fields-stored_fields, Avoids-stored_fields,
}

abbrev pub users : List KeyValuePair → List Property
users = map user

Avoids-users : (i : ℕ) (kvs : List KeyValuePair) → i ≢ user_property → Avoids i (users kvs)
unfolding user
Avoids-users i [] h = tt
Avoids-users i (kv ∷ kvs) h = ((λ e. h (sym e)), Avoids-users i kvs h)

pub FieldsAvoid-users :
    (fs : List Field) (props : List Property) (kvs : List KeyValuePair)
    → Distinct fs
    → FieldsAvoid fs props
    → FieldsAvoid fs (props ++ users kvs)
FieldsAvoid-users [] props kvs d h = tt
FieldsAvoid-users (f ∷ fs) props kvs d h = (
  All-append (λ q. q.identifier ≢ f.id) props (users kvs) h.0 (Avoids-users f.id kvs d.0),
  FieldsAvoid-users fs props kvs d.2 h.1,
)

-- User properties are appended, whatever the list holds.
pub add_user_properties-users :
    (kvs : List KeyValuePair) (props : List Property)
    → add_user_properties kvs props ≡ ok (props ++ users kvs)
unfolding add_user_properties add_value make_property add_property activate_id assign_value user
add_user_properties-users [] props = ap ok (sym (append-nil props))
add_user_properties-users (kv ∷ kvs) props = ground (
  arith,
  add_user_properties-users kvs (props ++ user kv ∷ []),
  append_assoc props (user kv ∷ []) (users kvs),
)

-- Properties of identifiers that differ from each other.
abbrev pub DistinctIds : List Property → Type 0
DistinctIds [] = Unit {0}
DistinctIds (p ∷ ps) = Avoids p.identifier ps × DistinctIds ps

-- They are no user properties, and are apart from the fields' identifiers.
abbrev pub IsForeign : List Field → Property → Type 0
IsForeign fs p = (p.identifier ≢ user_property) × All (λ f. p.identifier ≢ f.id) fs

-- No identifier of the first list stands in the second.
abbrev pub AllAvoid : List Property → List Property → Type 0
AllAvoid ps props = All (λ p. Avoids p.identifier props) ps

AllAvoid-snoc :
    (ps props : List Property) (q : Property)
    → All (λ p. Avoids p.identifier props) ps
    → Avoids q.identifier ps
    → All (λ p. Avoids p.identifier (props ++ q ∷ [])) ps
AllAvoid-snoc [] props q h k = tt
AllAvoid-snoc (p ∷ ps) props q h k = (
  All-append (λ r. r.identifier ≢ p.identifier) props (q ∷ []) h.0 ((λ e. k.0 (sym e)), tt),
  AllAvoid-snoc ps props q h.1 k.1,
)

pub add_all-fresh :
    (ps props : List Property) → DistinctIds ps → AllAvoid ps props → add_all ps props ≡ props ++ ps
unfolding add_all
add_all-fresh [] props d h = sym (append-nil props)
add_all-fresh (p ∷ ps) props d h = ground (
  arith,
  add_property-fresh p props h.0,
  add_all-fresh ps (props ++ p ∷ []) d.1 (AllAvoid-snoc ps props p h.1 d.0),
  append_assoc props (p ∷ []) ps,
)

pub AllAvoid-append :
    (ps xs ys : List Property) → AllAvoid ps xs → AllAvoid ps ys → AllAvoid ps (xs ++ ys)
AllAvoid-append [] xs ys hx hy = tt
AllAvoid-append (p ∷ ps) xs ys hx hy = (
  All-append (λ r. r.identifier ≢ p.identifier) xs ys hx.0 hy.0,
  AllAvoid-append ps xs ys hx.1 hy.1,
)

pub AllAvoid-fields :
    (fs : List Field) (ps : List Property) → All (IsForeign fs) ps → AllAvoid ps (stored_fields fs)
AllAvoid-fields fs [] h = tt
AllAvoid-fields fs (p ∷ ps) h =
    (Avoids-stored_fields p.identifier fs h.0.1, AllAvoid-fields fs ps h.1)

pub AllAvoid-users :
    (fs : List Field) (kvs : List KeyValuePair) (ps : List Property)
    → All (IsForeign fs) ps
    → AllAvoid ps (users kvs)
AllAvoid-users fs kvs [] h = tt
AllAvoid-users fs kvs (p ∷ ps) h =
    (Avoids-users p.identifier kvs h.0.0, AllAvoid-users fs kvs ps h.1)

pub FieldsAvoid-stored_fields :
    (fs gs : List Field)
    → All (λ f. All (λ g. f.id ≢ g.id) gs) fs
    → FieldsAvoid fs (stored_fields gs)
FieldsAvoid-stored_fields [] gs h = tt
FieldsAvoid-stored_fields (f ∷ fs) gs h =
    (Avoids-stored_fields f.id gs h.0, FieldsAvoid-stored_fields fs gs h.1)

-- What a struct may keep as unknown, so that writing it changes none of it.
pub record IsApart (fs : List Field) (base : BaseProperties) : Type 0 where
  pub distinct : DistinctIds base.unknown_properties
  pub foreign : All (IsForeign fs) base.unknown_properties

-- The list that a struct writes: its fields, its user properties and what it did not know.
abbrev pub written : List Field → BaseProperties → List Property
written fs base = stored_fields fs ++ (users base.user_property ++ base.unknown_properties)

pub add_base_properties-written :
    (fs : List Field) (base : BaseProperties)
    → IsApart fs base
    → add_base_properties base (stored_fields fs) ≡ ok (written fs base)
unfolding add_base_properties
add_base_properties-written fs base a = ground (
  arith,
  add_user_properties-users base.user_property (stored_fields fs),
  add_all-fresh base.unknown_properties (stored_fields fs ++ users base.user_property) a.distinct (
      AllAvoid-append base.unknown_properties (stored_fields fs) (users base.user_property)
        (AllAvoid-fields fs base.unknown_properties a.foreign)
        (AllAvoid-users fs base.user_property base.unknown_properties a.foreign)),
  append_assoc (stored_fields fs) (users base.user_property) base.unknown_properties,
)

-- The `maybe_add` calls on an empty list, and then the base properties.
pub add_fields-written :
    (fs : List Field) (base : BaseProperties)
    → FieldsAccept fs
    → Distinct fs
    → IsApart fs base
    → (add_fields fs [] >>= add_base_properties base) ≡ ok (written fs base)
add_fields-written fs base acc d a =
    rw (add_fields-stored_fields fs [] acc d (avoid_nil fs)) (add_base_properties-written fs base a)
  where
    avoid_nil : (gs : List Field) → FieldsAvoid gs []
    avoid_nil [] = tt
    avoid_nil (g ∷ gs) = (tt, avoid_nil gs)

All-left {κ} : (P : Field → Type κ) (xs ys : List Field) → All P (xs ++ ys) → All P xs × All P ys
All-left P [] ys h = (tt, h)
All-left P (x ∷ xs) ys h = let (l, r) = All-left P xs ys h.1 in ((h.0, l), r)

-- Properties apart from two runs of fields are apart from each.
pub IsForeign-append :
    (fs gs : List Field) (ps : List Property)
    → All (IsForeign (fs ++ gs)) ps
    → All (IsForeign fs) ps × All (IsForeign gs) ps
IsForeign-append fs gs [] h = (tt, tt)
IsForeign-append fs gs (p ∷ ps) h =
    let (l, r) = All-left (λ f. p.identifier ≢ f.id) fs gs h.0.1 in
    let (ls, rs) = IsForeign-append fs gs ps h.1 in (((h.0.0, l), ls), ((h.0.0, r), rs))

-- What a struct writes is apart from the fields of a struct around it.
pub written-apart :
    (own fs : List Field) (base : BaseProperties)
    → All (λ g. (g.id ≢ user_property) × All (λ f. g.id ≢ f.id) fs) own
    → All (IsForeign own) base.unknown_properties
    → All (λ q. All (λ f. q.identifier ≢ f.id) own) (written fs base)
written-apart own fs base d foreign =
    All-append (λ q. All (λ f. q.identifier ≢ f.id) own) (stored_fields fs) _ (transpose own fs d)
      (All-append (λ q. All (λ f. q.identifier ≢ f.id) own) (users base.user_property)
        base.unknown_properties (users_apart own base.user_property d)
        (strip base.unknown_properties foreign))
  where
    field_apart :
        (gs : List Field) (p : Property)
        → All (λ g. Avoids g.id (p ∷ [])) gs
        → All (λ g. p.identifier ≢ g.id) gs
    field_apart [] p h = tt
    field_apart (g ∷ gs) p h = (h.0.0, field_apart gs p h.1)

    heads :
        (gs : List Field) (p : Property) (ps : List Property)
        → All (λ g. Avoids g.id (p ∷ ps)) gs
        → All (λ g. Avoids g.id (p ∷ [])) gs × All (λ g. Avoids g.id ps) gs
    heads [] p ps h = (tt, tt)
    heads (g ∷ gs) p ps h = let (l, r) = heads gs p ps h.1 in (((h.0.0, tt), l), (h.0.1, r))

    flip :
        (gs : List Field) (ps : List Property)
        → All (λ g. Avoids g.id ps) gs
        → All (λ q. All (λ g. q.identifier ≢ g.id) gs) ps
    flip gs [] h = tt
    flip gs (p ∷ ps) h = let (l, r) = heads gs p ps h in (field_apart gs p l, flip gs ps r)

    avoid :
        (gs hs : List Field)
        → All (λ g. (g.id ≢ user_property) × All (λ f. g.id ≢ f.id) hs) gs
        → All (λ g. Avoids g.id (stored_fields hs)) gs
    avoid [] hs h = tt
    avoid (g ∷ gs) hs h = (Avoids-stored_fields g.id hs h.0.1, avoid gs hs h.1)

    transpose :
        (gs hs : List Field)
        → All (λ g. (g.id ≢ user_property) × All (λ f. g.id ≢ f.id) hs) gs
        → All (λ q. All (λ g. q.identifier ≢ g.id) gs) (stored_fields hs)
    transpose gs hs h = flip gs (stored_fields hs) (avoid gs hs h)

    avoid_users :
        (gs : List Field) (kvs : List KeyValuePair)
        → All (λ g. (g.id ≢ user_property) × All (λ f. g.id ≢ f.id) fs) gs
        → All (λ g. Avoids g.id (users kvs)) gs
    avoid_users [] kvs h = tt
    avoid_users (g ∷ gs) kvs h = (Avoids-users g.id kvs h.0.0, avoid_users gs kvs h.1)

    users_apart :
        (gs : List Field) (kvs : List KeyValuePair)
        → All (λ g. (g.id ≢ user_property) × All (λ f. g.id ≢ f.id) fs) gs
        → All (λ q. All (λ g. q.identifier ≢ g.id) gs) (users kvs)
    users_apart gs kvs h = flip gs (users kvs) (avoid_users gs kvs h)

    strip :
        (ps : List Property)
        → All (IsForeign own) ps
        → All (λ q. All (λ f. q.identifier ≢ f.id) own) ps
    strip [] h = tt
    strip (p ∷ ps) h = (h.0.1, strip ps h.1)

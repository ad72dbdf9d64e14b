-- ===== src/Serde/Elements.antt =====
-- The methods of src/net/serializer.rs for the elements of a value.
use smo_multi_rs.Base.{ℕ, ◌≡◌, ◌≢◌, refl, ap, ◌∙◌, List}
use smo_multi_rs.Bytes.{◌>>◌}
use smo_multi_rs.Errors.{panic}
use smo_multi_rs.Serde.{Scalars}
use smo_multi_rs.Serde.Serializer.{
  Value, Fields, no_fields, field, Collection, in_struct, in_seq, in_tuple, in_tuple_struct,
  in_tuple_variant, in_map, serialize, serialize_fields, serialize_element, end_of,
  serialize_elements,
}

element_alike :
    (io : Scalars) (k : Collection) (v : Value)
    → k ≢ in_map
    → serialize_element io k v ≡ serialize io v
unfolding serialize_element
element_alike io in_struct v h = refl
element_alike io in_seq v h = refl
element_alike io in_tuple v h = refl
element_alike io in_tuple_struct v h = refl
element_alike io in_tuple_variant v h = refl
element_alike io in_map v h = absurd (h refl)

end_alike :
    (io : Scalars) (k : Collection) → k ≢ in_map → end_of io k ≡ serialize_fields io no_fields
unfolding end_of serialize_fields
end_alike io in_struct h = refl
end_alike io in_seq h = refl
end_alike io in_tuple h = refl
end_alike io in_tuple_struct h = refl
end_alike io in_tuple_variant h = refl
end_alike io in_map h = absurd (h refl)

-- The elements of a collection that is no map are written as the fields of a struct variant are.
pub serialize_elements-fields :
    (io : Scalars) (k : Collection) (fs : Fields)
    → k ≢ in_map
    → serialize_elements io k fs ≡ serialize_fields io fs
unfolding serialize_elements serialize_fields
serialize_elements-fields io k no_fields h = end_alike io k h
serialize_elements-fields io k (field v fs) h =
    ap (λ m. m >> serialize_elements io k fs) (element_alike io k v h)
    ∙ ap (λ m. serialize io v >> m) (serialize_elements-fields io k fs h)

-- The methods for a map panic at the first element, and at the end of an empty map.
serialize_elements-map :
    (io : Scalars) (fs : Fields) (buf : List ℕ) → serialize_elements io in_map fs buf ≡ panic
unfolding serialize_elements serialize_element end_of
serialize_elements-map io no_fields buf = refl
serialize_elements-map io (field v fs) buf = refl

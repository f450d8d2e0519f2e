-- ===== src/Ui/Form/Sealed/Mapping.antt =====
-- The mapping that `build_mapping` of wifi_shepard_ui/config_io.py makes, by the table of the fields.
use wifi_shepard.Load.Redact.Blind.{names_secret}
use wifi_shepard.Load.Yaml.{Value, Fields, null, seq, end, get}
use wifi_shepard.Mac.{lower, lower_char, is_upper}
use wifi_shepard.Prelude.{
  String, Bool, true, Option, none, some, List, [], ◌∷◌, ◌≡◌, refl, inl, all, All, ok, Ok, returned,
  ◌▹◌, trivially, Ok-holds, if_intro,
}
use wifi_shepard.Ui.Form.{
  path_of, set_path, add_scalars, add_lists, add_objects, toggled, flag_of, drop_sections, part_of,
  build_mapping,
}
use wifi_shepard.Ui.Form.Coerce.{rows_of}
use wifi_shepard.Ui.Form.Paths.{get_at, del_at, split_dots}
use wifi_shepard.Ui.Form.Sealed.{Sealed, SealedFields, set_at-Ok, del_at-Sealed}
use wifi_shepard.Ui.Schema.{
  ObjectListSpec, scalar_fields, scalar_list_fields, leaves, after_prefix, has_brackets,
  object_lists, optional_sections,
}
use wifi_shepard.Ui.Form.Sealed.Coerced.{Fits, coerce_as-Ok, coerce_list-Ok}
use wifi_shepard.Ui.Form.Sealed.Built.{
  is_safe_path, safe-GuardsAt, all_first, all_rest, SafeSpec, build_items-Ok,
}
use wifi_shepard.Ui.Schema.Kinds.{Kind, FieldSpec}

abbrev path_safe : FieldSpec → Bool
path_safe f = is_safe_path f.kind (split_dots (path_of (λ v. "") f))

abbrev list_path_safe : FieldSpec → Bool
list_path_safe f = is_safe_path Kind.string (split_dots f.path)

abbrev section_safe : String → Bool
section_safe path = is_safe_path Kind.string (split_dots path)

scalar_fields_safe : all path_safe scalar_fields ≡ true
unfolding scalar_fields has_brackets split_dots names_secret lower lower_char is_upper
scalar_fields_safe = refl

scalar_list_fields_safe : all list_path_safe scalar_list_fields ≡ true
unfolding scalar_list_fields has_brackets split_dots names_secret lower lower_char is_upper
scalar_list_fields_safe = refl

optional_sections_safe : all section_safe optional_sections ≡ true
unfolding split_dots names_secret lower lower_char is_upper
optional_sections_safe = refl

object_lists_safe : All SafeSpec object_lists
unfolding leaves after_prefix has_brackets names_secret lower lower_char is_upper
object_lists_safe = (
  record { own_leaves = refl; nested_safe = tt; location_free = refl },
  (
    record { own_leaves = refl; nested_safe = tt; location_free = refl },
    (
      record { own_leaves = refl; nested_safe = tt; location_free = refl },
      (
        record {
          own_leaves = refl;
          nested_safe = record { key_free = refl; nested_leaves = refl };
          location_free = refl;
        },
        tt,
      ),
    ),
  ),
)

module _ (show : Value → String) where
  set_path-Ok :
      (f : FieldSpec) (o : Option Value) (m : Fields)
      → path_safe f ≡ true
      → Fits f.kind o
      → SealedFields m
      → Ok SealedFields (set_path show (path_of show f) o m)
  unfolding Fits
  set_path-Ok f none m e fits s = returned m s
  set_path-Ok f (some v) m e fits s =
      set_at-Ok (split_dots (path_of show f)) v m s (fits.0)
        (safe-GuardsAt f.kind (split_dots (path_of show f)) v e (fits.1))

  add_scalars-Ok :
      (fs : List FieldSpec) (scalars m : Fields)
      → all path_safe fs ≡ true
      → SealedFields m
      → Ok SealedFields (add_scalars show fs scalars m)
  unfolding add_scalars
  add_scalars-Ok [] scalars m e s = returned m s
  add_scalars-Ok (f ∷ rest) scalars m e s =
      coerce_as-Ok show f.kind f (get scalars f.path) ▹ λ o fits.
      set_path-Ok f o m (all_first path_safe f rest e) fits s ▹ λ m' s'.
      add_scalars-Ok rest scalars m' (all_rest path_safe f rest e) s'

  add_lists-Ok :
      (fs : List FieldSpec) (lists m : Fields)
      → all list_path_safe fs ≡ true
      → SealedFields m
      → Ok SealedFields (add_lists show fs lists m)
  unfolding add_lists
  add_lists-Ok [] lists m e s = returned m s
  add_lists-Ok (f ∷ rest) lists m e s = coerce_list-Ok show f (get lists f.path) ▹ λ v sealed.
      set_at-Ok (split_dots f.path) v m s sealed (
        safe-GuardsAt Kind.string (split_dots f.path) v (all_first list_path_safe f rest e)
          (inl refl))
      ▹ λ m' s'. add_lists-Ok rest lists m' (all_rest list_path_safe f rest e) s'

  add_objects-Ok :
      (specs : List ObjectListSpec) (objects m : Fields)
      → All SafeSpec specs
      → SealedFields m
      → Ok SealedFields (add_objects show specs objects m)
  unfolding add_objects Sealed
  add_objects-Ok [] objects m safe s = returned m s
  add_objects-Ok (spec ∷ rest) objects m safe s =
      trivially (rows_of (get objects spec.key)) ▹ λ rows _.
      build_items-Ok show spec rows (safe.0) ▹ λ items sealed.
      set_at-Ok spec.location (seq items) m s sealed
        (safe-GuardsAt Kind.string spec.location (seq items) (safe.0.location_free) (inl refl))
      ▹ λ m' s'. add_objects-Ok rest objects m' (safe.1) s'

  drop_sections-Sealed :
      (paths : List String) (enabled : Value) (m : Fields)
      → all section_safe paths ≡ true
      → SealedFields m
      → SealedFields (drop_sections show paths enabled m)
  unfolding drop_sections
  drop_sections-Sealed [] enabled m e s = s
  drop_sections-Sealed (path ∷ rest) enabled m e s =
      drop_sections-Sealed rest enabled _ (all_rest section_safe path rest e) (
        if_intro SealedFields
          (toggled show (flag_of show enabled path) (get_at (split_dots path) m))
          (del_at (split_dots path) m) m
          (λ _.
            del_at-Sealed (split_dots path) m
              (safe-GuardsAt Kind.string (split_dots path) null (all_first section_safe path rest e)
                (inl refl))
              s)
          (λ _. s))

  build_mapping-Ok : (payload : Fields) → Ok SealedFields (build_mapping show payload)
  unfolding build_mapping Sealed
  build_mapping-Ok payload = trivially (part_of show (get payload "scalars")) ▹ λ scalars _.
      trivially (part_of show (get payload "scalar_lists")) ▹ λ lists _.
      trivially (part_of show (get payload "object_lists")) ▹ λ objects _.
      add_scalars-Ok scalar_fields scalars end scalar_fields_safe tt ▹ λ m s.
      add_lists-Ok scalar_list_fields lists m scalar_list_fields_safe s ▹ λ m' s'.
      add_objects-Ok object_lists objects m' object_lists_safe s' ▹ λ m'' s''. returned _ (
        drop_sections-Sealed optional_sections (get payload "section_enabled") m''
          optional_sections_safe s'')

  -- Whatever is submitted, where a mapping is built of it, every key `password` or `token` in it, at
  -- whatever depth, holds the placeholder of an environment variable with a valid name, and nothing
  -- else.
  pub build_mapping-Sealed :
      (payload m : Fields) → build_mapping show payload ≡ ok m → SealedFields m
  build_mapping-Sealed payload m e = Ok-holds (build_mapping-Ok payload) e

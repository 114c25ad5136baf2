-- ===== src/Serde/Query/Laws/Asked.antt =====
-- What `Query::try_from_value` of src/dns/serde.rs asks about an input without records.
use nu_plugin_dns.Prelude.{List, [], ◌∷◌, map, All, All-append, Bool-cases, inl, inr}
use nu_plugin_dns.Prelude.{
  ok, map_err, collect_map, >>=-eq-ok, ok-injective, ◌≡◌, refl, ◌⊎◌, String,
}
use mathlib.Core.Path.{subst}
use nu_plugin_dns.Nu.{Value, Items, nil, cons, Span, Spanned, of_items}
use nu_plugin_dns.Nu.Protocol.{NuProtocol}
use nu_plugin_dns.Std.Bytes.{Endian}
use nu_plugin_dns.Hickory.{Hickory}
use nu_plugin_dns.Hickory.Message.{Query}
use nu_plugin_dns.Config.{Config}
use nu_plugin_dns.Serde.Query.{
  name_err, label, all_labels, queries_for, string_queries, label_queries, try_from_value,
  try_from_items,
}

-- No record stands in the value, at any depth.
unfoldable mutual
  pub HasNoRecord : Value → Type 0
  HasNoRecord (Value.rec _ _) = ⊥
  HasNoRecord (Value.list vals _) = HaveNoRecord vals
  HasNoRecord _ = Unit

  pub HaveNoRecord : Items → Type 0
  HaveNoRecord nil = Unit
  HaveNoRecord (cons v vs) = HasNoRecord v × HaveNoRecord vs

module _ (H : Hickory) (N : NuProtocol) (order : Endian) (config : Config H) where
  -- The type of a question is one of those given, spanned or not.
  abbrev pub IsGiven : List (Spanned H.RecordType) → H.RecordType → Type 0
  IsGiven [] t = ⊥
  IsGiven (s ∷ ss) t = (s.item ≡ t) ⊎ IsGiven ss t

  abbrev pub IsByFlags : Query H → Type 0
  IsByFlags q = (q.query_class ≡ config.class.item) × IsGiven config.qtypes.item q.query_type

  map-IsGiven :
      (name : H.Name) (given rest : List (Spanned H.RecordType))
      → ((t : H.RecordType) → IsGiven rest t → IsGiven given t)
      → All
          (λ (q : Query H). (q.query_class ≡ config.class.item) × IsGiven given q.query_type)
          (map
            (λ (qtype : Spanned H.RecordType). record {
              name = name;
              query_type = qtype.item;
              query_class = config.class.item;
            })
            rest)
  map-IsGiven name given [] h = tt
  map-IsGiven name given (s ∷ ss) h =
      ((refl, h s.item (inl refl)), map-IsGiven name given ss (λ t i. h t (inr i)))

  queries_for-IsByFlags : (name : H.Name) → All IsByFlags (queries_for H N order config name)
  unfolding queries_for
  queries_for-IsByFlags name = map-IsGiven name config.qtypes.item config.qtypes.item (λ t i. i)

  string_queries-IsByFlags :
      (val : String) (span : Span) {qs : List (Query H)}
      → string_queries H N order config val span ≡ ok qs
      → All IsByFlags qs
  unfolding string_queries
  string_queries-IsByFlags val span e =
      let parsed = map_err (name_err "Error parsing name: " span) (H.name_from_utf8 val) in
      let (name, _, same) = >>=-eq-ok parsed _ e in
      subst (All IsByFlags) (ok-injective same) (queries_for-IsByFlags name)

  label_queries-IsByFlags :
      (vals : Items) (span : Span) {qs : List (Query H)}
      → label_queries H N order config vals span ≡ ok qs
      → All IsByFlags qs
  unfolding label_queries
  label_queries-IsByFlags vals span e =
      let (labels, _, rest) = >>=-eq-ok (collect_map (label order) (of_items vals)) _ e in
      let parsed =
        map_err (name_err "Error parsing into name: " span) (H.name_from_labels labels) in
      let (name, _, same) = >>=-eq-ok parsed _ rest in
      subst (All IsByFlags) (ok-injective same) (queries_for-IsByFlags name)

  mutual
    unfolding try_from_value HasNoRecord

    value-IsByFlags :
        (v : Value) {qs : List (Query H)}
        → HasNoRecord v
        → try_from_value H N order config v ≡ ok qs
        → All IsByFlags qs
    value-IsByFlags (Value.rec cols span) h e = absurd h
    value-IsByFlags (Value.string val span) h e = string_queries-IsByFlags val span e
    value-IsByFlags (Value.list vals span) h e = elim (Bool-cases (all_labels vals)) [
      | inl labels ↦ label_queries-IsByFlags vals span (rw labels at e)
      | inr mixed ↦ items-IsByFlags vals h (rw mixed at e)
    ]
    value-IsByFlags _ h e = cc

    items-IsByFlags :
        (vs : Items) {qs : List (Query H)}
        → HaveNoRecord vs
        → try_from_items H N order config vs ≡ ok qs
        → All IsByFlags qs
    items-IsByFlags nil h e = subst (All IsByFlags) (ok-injective e) tt
    items-IsByFlags (cons v vs) h e =
        let (qs, here, rest) = >>=-eq-ok (try_from_value H N order config v) _ e in
        let (more, later, same) = >>=-eq-ok (try_from_items H N order config vs) _ rest in
        subst (All IsByFlags) (ok-injective same)
          (All-append IsByFlags qs more (value-IsByFlags v h.0 here) (items-IsByFlags vs h.1 later))

  -- Each question that an accepted input without records asks, at any depth, has the class of the
  -- flags and one of the types of the flags.
  pub try_from_value-IsByFlags :
      (v : Value) {qs : List (Query H)}
      → HasNoRecord v
      → try_from_value H N order config v ≡ ok qs
      → All IsByFlags qs
  try_from_value-IsByFlags v h e = value-IsByFlags v h e

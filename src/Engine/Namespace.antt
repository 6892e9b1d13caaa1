-- ===== src/Engine/Namespace.antt =====
-- `NamespaceAndNodeIdParser` of src/cli.rs. The namespaces of rendezvous points and the peer ids are
-- of another package: `namespace_new` is `Namespace::new`, `peer_from_str` is `PeerId::from_str`.
use trithemius_p2p.Base.{
  ℕ, ◌≢◌, Bool-cases, [], sym, ◌≡◌, refl, ◌∙◌, Text, codes, Option, none, some, true, false, ◌∷◌,
  ◌++◌, Outcome, ok, err, panic, ◌⊎◌, inl, inr, has_char, split_once, split_once_found,
  if◌then◌else◌, eqb, arith,
}

pub record NamespaceAndNodeId (Namespace PeerId : Type 0) : Type 0 where
  pub namespace : Namespace
  pub node_id : PeerId

-- `clap::Error` of the kind `ValueValidation`.
pub data ClapError : Type 0 where
  value_validation : Text → ClapError

-- What other packages make of the parts.
pub record Parsers : Type 1 where
  pub Namespace : Type 0
  pub PeerId : Type 0
  pub ParseError : Type 0
  pub namespace_new : Text → Option Namespace
  pub peer_from_str : Text → ParseError ⊎ PeerId
  pub show_parse_error : ParseError → Text

module _ (P : Parsers) where
  abbrev pub Parsed : Type 0
  Parsed = Outcome ClapError (NamespaceAndNodeId P.Namespace P.PeerId)

  abbrev pub with_node_id : P.Namespace → P.ParseError ⊎ P.PeerId → Parsed
  with_node_id namespace (inr node_id) = ok (record { namespace = namespace; node_id = node_id })
  with_node_id namespace (inl error) =
      err (value_validation (codes "Error parsing peer ID: " ++ P.show_parse_error error))

  abbrev pub with_namespace : Option P.Namespace → Text → Parsed
  with_namespace (some namespace) node_id = with_node_id namespace (P.peer_from_str node_id)
  with_namespace none node_id = err (value_validation (codes "Namespace is too long"))

  -- `split_once('/').unwrap()`
  abbrev pub of_values : Option (Text × Text) → Parsed
  of_values none = panic
  of_values (some (namespace, node_id)) = with_namespace (P.namespace_new namespace) node_id

  -- `none` is a value that is not Unicode.
  unfoldable pub parse_ref : Option Text → Parsed
  parse_ref (some value_str) =
      if has_char b'/' value_str
      then of_values (split_once b'/' value_str)
      else err (
          value_validation
            (codes "Namespace and NodeId should be specified as 'NAMESPACE/NODE_ID'"))
  parse_ref none = err (value_validation (codes "Namespace and NodeId aren't valid unicode"))

has_char_at : (c : ℕ) (a b : Text) → has_char c (a ++ c ∷ b) ≡ true
has_char_at c [] b = ground arith
has_char_at c (d ∷ a) b = ground (arith, has_char_at c a b)

split_once_slash :
    (s : Text) → has_char b'/' s ≡ true → (r : Text × Text) × (split_once b'/' s ≡ some r)
split_once_slash [] h = cc
split_once_slash (c ∷ s) h = elim (Bool-cases (eqb c b'/')) [
  | inl e ↦ (([], s), ground arith)
  | inr e ↦ (let (r, f) = split_once_slash s (ground arith) in ((c ∷ r.0, r.1), ground (arith, f)))
]

module _ (P : Parsers) where
  -- A namespace without a slash and what follows the first slash are parsed on their own.
  pub parse_ref_lem :
      (name id : Text)
      → has_char b'/' name ≡ false
      → parse_ref P (some (name ++ b'/' ∷ id)) ≡ with_namespace P (P.namespace_new name) id
  unfolding parse_ref
  parse_ref_lem name id h = rw (has_char_at b'/' name id, split_once_found b'/' name id h) refl

  with_node_id_total : (n : P.Namespace) (r : P.ParseError ⊎ P.PeerId) → with_node_id P n r ≢ panic
  with_node_id_total n (inl x) e = cc
  with_node_id_total n (inr x) e = cc

  with_namespace_total : (n : Option P.Namespace) (id : Text) → with_namespace P n id ≢ panic
  with_namespace_total none id e = cc
  with_namespace_total (some n) id e = with_node_id_total n (P.peer_from_str id) e

  -- No value of the option, with or without a slash, whatever its parts are, panics the parser.
  pub parse_ref_total : (value : Option Text) → parse_ref P value ≢ panic
  unfolding parse_ref
  parse_ref_total none e = cc
  parse_ref_total (some s) e = elim (Bool-cases (has_char b'/' s)) [
    | inl h ↦
        (let (r, f) = split_once_slash s h in
          with_namespace_total (P.namespace_new r.0) r.1 (sym (rw (h, f) refl) ∙ e))
    | inr h ↦ cc
  ]

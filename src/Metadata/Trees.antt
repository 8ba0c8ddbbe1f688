-- ===== src/Metadata/Trees.antt =====
-- A JSON library that can be run: values as trees.
use rtc_egress.Prelude.{
  ℕ, String, List, [], ◌∷◌, ℤ, pos, Option, none, some, Bool, false, if◌then◌else◌, str_eq, ◌≡◌,
  refl, ap,
}
use rtc_egress.Metadata.Defs.{AuditEntry, Rate}
use rtc_egress.Metadata.Json.{JsonLib}

mutual
  data Tree : Type 0 where
    null : Tree
    text : String → Tree
    integer : ℤ → Tree
    unsigned : ℕ → Tree
    boolean : Bool → Tree
    rate : Rate → Tree
    bytes : List ℕ → Tree
    texts : List String → Tree
    log : List AuditEntry → Tree
    stamp : ℕ → Tree
    array : Trees → Tree
    member : String → Tree → Tree → Tree  -- written behind an object

  data Trees : Type 0 where
    nil : Trees
    item : Tree → Trees → Trees

abbrev get_member : String → Tree → Option Tree
get_member k (Tree.member key v j) = if str_eq key k then some v else get_member k j
get_member k _ = none

abbrev items : Trees → List Tree
items Trees.nil = []
items (Trees.item t ts) = t ∷ items ts

abbrev of_items : List Tree → Trees
of_items [] = Trees.nil
of_items (t ∷ ts) = Trees.item t (of_items ts)

items-of_items : (ts : List Tree) → items (of_items ts) ≡ ts
items-of_items [] = refl
items-of_items (t ∷ ts) = ap (λ us. t ∷ us) (items-of_items ts)

abbrev as_text : Tree → String
as_text (Tree.text s) = s
as_text _ = ""

abbrev as_integer : Tree → ℤ
as_integer (Tree.integer n) = n
as_integer _ = pos 0

abbrev as_unsigned : Tree → ℕ
as_unsigned (Tree.unsigned n) = n
as_unsigned _ = 0

abbrev as_boolean : Tree → Bool
as_boolean (Tree.boolean b) = b
as_boolean _ = false

abbrev as_rate : Tree → Rate
as_rate (Tree.rate r) = r
as_rate _ = record { frames = pos 0; duration = pos 0 }

abbrev as_bytes : Tree → List ℕ
as_bytes (Tree.bytes b) = b
as_bytes _ = []

abbrev as_texts : Tree → List String
as_texts (Tree.texts s) = s
as_texts _ = []

abbrev as_log : Tree → List AuditEntry
as_log (Tree.log l) = l
as_log _ = []

abbrev as_items : Tree → List Tree
as_items (Tree.array ts) = items ts
as_items _ = []

pub trees : JsonLib
trees = record {
  Json = Tree;
  null = Tree.null;
  set = Tree.member;
  get = get_member;
  get-null = λ k. refl;
  get-set = λ k other v j. refl;
  text = record { encode = Tree.text; decode = as_text; decode-encode = λ a. refl };
  integer = record { encode = Tree.integer; decode = as_integer; decode-encode = λ a. refl };
  unsigned = record { encode = Tree.unsigned; decode = as_unsigned; decode-encode = λ a. refl };
  boolean = record { encode = Tree.boolean; decode = as_boolean; decode-encode = λ a. refl };
  real = record { encode = Tree.integer; decode = as_integer; decode-encode = λ a. refl };
  rate = record { encode = Tree.rate; decode = as_rate; decode-encode = λ a. refl };
  bytes = record { encode = Tree.bytes; decode = as_bytes; decode-encode = λ a. refl };
  texts = record { encode = Tree.texts; decode = as_texts; decode-encode = λ a. refl };
  log = record { encode = Tree.log; decode = as_log; decode-encode = λ a. refl };
  array = record {
    encode = λ ts. Tree.array (of_items ts);
    decode = as_items;
    decode-encode = items-of_items;
  };
  format_timestamp = Tree.stamp;
}

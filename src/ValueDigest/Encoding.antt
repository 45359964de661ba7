-- ===== src/ValueDigest/Encoding.antt =====
-- The digest of a value is the hash of its encoding: the same traversal over plain bytes.
use unity_common.Base.{
  ℕ, zero, suc, ◌+◌, ◌-◌, ◌≡◌, refl, ap, subst, Bool, true, false, ◌||◌, Option, none, some, [],
  ◌∷◌, ◌++◌, ltb, leb, ◌==◌, if◌then◌else◌, length,
}
use unity_common.Base.Words.{Bytes}
use unity_common.Base.Int.{ℤ, pos, negsuc}
use unity_common.Sha256.{Context, common_sha256_init, common_sha256_update, common_sha256_final}
use unity_common.Sha256.Reference.{reference}
use unity_common.Sha256.Absorb.{Tracks, init-Tracks, common_sha256_update-Tracks}
use unity_common.Sha256.Finish.{common_sha256_final-reference}
use unity_common.ValueDigest.{
  Value, value, Payload, integer, float, string, elements, packed_bytes, no_elements, members,
  no_members, nothing, unknown_type, Values, end, next, max_nodes, max_depth, max_string, type_tag,
  count_of, expanded_bytes, byte_of, little_word, text_size, ◌>>=◌, hash_bytes, hash_string,
  hash_tag, open_value, hash_counts, spend, hash_elements, hash_packed, hash_none, hash_value,
  hash_payload, hash_values, domain, hash_domain, typetree_value_digest,
}

-- Bytes take every update at their end.
abbrev pub append : Bytes → Bytes → Option Bytes
append message input = some (message ++ input)

-- The encoding of a value, `none` for a value that is refused.
abbrev pub message_of : Option (Bytes × ℕ) → Option Bytes
message_of none = none
message_of (some e) = some e.0

unfoldable pub encoding : Option Value → Option Bytes
encoding v = message_of (hash_domain append v [])

-- A run over a context and one over bytes that are as far: both stopped, or the context has absorbed
-- the bytes and as many nodes are left.
Related : Option (Context × ℕ) → Option (Bytes × ℕ) → Type 0
Related none none = Unit {0}
Related none (some e) = ⊥
Related (some d) none = ⊥
Related (some d) (some e) = Tracks d.0 e.0 × (d.1 ≡ e.1)

-- Two steps that keep the runs together.
record Agree (f : Context × ℕ → Option (Context × ℕ)) (g : Bytes × ℕ → Option (Bytes × ℕ))
    : Type 0 where
  on : (c : Context) (m : Bytes) (nodes : ℕ) → Tracks c m → Related (f (c, nodes)) (g (m, nodes))

Related-bind :
    (o : Option (Context × ℕ)) (p : Option (Bytes × ℕ)) (f : Context × ℕ → Option (Context × ℕ))
    (g : Bytes × ℕ → Option (Bytes × ℕ))
    → Related o p
    → Agree f g
    → Related (o >>= f) (p >>= g)
unfolding Related
Related-bind none none f g h k = tt
Related-bind none (some e) f g h k = absurd h
Related-bind (some d) none f g h k = absurd h
Related-bind (some d) (some e) f g (t, n) k =
    subst (λ j. Related (f d) (g (e.0, j))) n (k.on d.0 e.0 d.1 t)

Agree-bytes :
    (input : Bytes) → Agree (hash_bytes common_sha256_update input) (hash_bytes append input)
unfolding Related
Agree-bytes input = record {
  on = λ c m nodes t. let (c', e, t') = common_sha256_update-Tracks c m input t in rw e (t', refl);
}

Agree-bind :
    (f f' : Context × ℕ → Option (Context × ℕ)) (g g' : Bytes × ℕ → Option (Bytes × ℕ))
    → Agree f g
    → Agree f' g'
    → Agree (λ d. f d >>= f') (λ e. g e >>= g')
Agree-bind f f' g g' h k = record {
  on = λ c m nodes t. Related-bind (f (c, nodes)) (g (m, nodes)) f' g' (h.on c m nodes t) k;
}

Agree-if :
    (b : Bool) (f f' : Context × ℕ → Option (Context × ℕ)) (g g' : Bytes × ℕ → Option (Bytes × ℕ))
    → Agree f g
    → Agree f' g'
    → Agree (λ d. if b then f d else f' d) (λ e. if b then g e else g' e)
Agree-if true f f' g g' h k = h
Agree-if false f f' g g' h k = k

Agree-none : Agree (λ d. none) (λ e. none)
unfolding Related
Agree-none = record { on = λ c m nodes t. tt }

Agree-some : Agree (λ d. some d) (λ e. some e)
unfolding Related
Agree-some = record { on = λ c m nodes t. (t, refl) }

-- A test of the nodes that are left comes out the same.
Agree-nodes :
    (f : ℕ → Context × ℕ → Option (Context × ℕ)) (g : ℕ → Bytes × ℕ → Option (Bytes × ℕ))
    → ((n : ℕ) → Agree (f n) (g n))
    → Agree (λ d. f d.1 d) (λ e. g e.1 e)
Agree-nodes f g h = record { on = λ c m nodes t. (h nodes).on c m nodes t }

Agree-spend :
    (n : ℕ) (f : Context × ℕ → Option (Context × ℕ)) (g : Bytes × ℕ → Option (Bytes × ℕ))
    → Agree f g
    → Agree (λ d. f (spend common_sha256_update n d)) (λ e. g (spend append n e))
Agree-spend n f g h = record { on = λ c m nodes t. h.on c m (nodes - n) t }

Agree-string :
    (text : Option Bytes) → Agree (hash_string common_sha256_update text) (hash_string append text)
Agree-string none = Agree-none
Agree-string (some text) =
    Agree-if (ltb max_string (length text)) _ _ _ _ Agree-none
      (Agree-bind _ _ _ _ (Agree-bytes (little_word (length text))) (Agree-bytes text))

Agree-tag :
    (name type_str : Option Bytes) (tag : ℕ)
    → Agree (hash_tag common_sha256_update name type_str tag) (hash_tag append name type_str tag)
Agree-tag name type_str tag =
    Agree-bind _ _ _ _ (Agree-bytes (little_word tag))
      (Agree-bind _ _ _ _ (Agree-string name) (Agree-string type_str))

Agree-open :
    (name type_str : Option Bytes) (tag : Option ℕ) (depth : ℕ)
    → Agree
        (open_value common_sha256_update name type_str tag depth)
        (open_value append name type_str tag depth)
Agree-open name type_str none depth = Agree-none
Agree-open name type_str (some tag) depth = Agree-nodes _ _ (λ n.
    Agree-if (leb max_depth depth || n == 0) _ _ _ _ Agree-none
      (Agree-spend 1 _ _ (Agree-tag name type_str tag)))

Agree-counts :
    (n : ℕ) (b : Bool) → Agree (hash_counts common_sha256_update n b) (hash_counts append n b)
Agree-counts n b =
    Agree-bind _ _ _ _ (Agree-bytes (little_word n))
      (Agree-bytes (little_word (if b then 1 else 0)))

Agree-elements :
    (vs : Values) → Agree (hash_elements common_sha256_update vs) (hash_elements append vs)
unfolding hash_elements
Agree-elements end = Agree-some
Agree-elements (next v vs) = Agree-bind _ _ _ _ (Agree-bytes (byte_of v ∷ [])) (Agree-elements vs)

Agree-packed :
    (bytes : Bytes) → Agree (hash_packed common_sha256_update bytes) (hash_packed append bytes)
Agree-packed [] = Agree-some
Agree-packed (b ∷ bytes) = Agree-bytes (b ∷ bytes)

Agree-hash_none :
    (count : ℤ) (f : Context × ℕ → Option (Context × ℕ)) (g : Bytes × ℕ → Option (Bytes × ℕ))
    → Agree f g
    → Agree (hash_none common_sha256_update count f) (hash_none append count g)
Agree-hash_none (pos zero) f g h = h
Agree-hash_none (pos (suc n)) f g h = Agree-none
Agree-hash_none (negsuc n) f g h = Agree-none

mutual
  unfolding hash_value hash_payload hash_values

  Agree-value :
      (v : Value) (depth : ℕ)
      → Agree (hash_value common_sha256_update v depth) (hash_value append v depth)
  Agree-value (value name type_str payload) depth =
      Agree-bind _ _ _ _ (Agree-open name type_str (type_tag payload) depth)
        (Agree-payload payload depth)

  Agree-payload :
      (p : Payload) (depth : ℕ)
      → Agree (hash_payload common_sha256_update p depth) (hash_payload append p depth)
  Agree-payload (integer is_unsigned bits) depth =
      Agree-bind _ _ _ _ (Agree-bytes (little_word (if is_unsigned then 1 else 0)))
        (Agree-bytes (little_word bits))
  Agree-payload (float bits) depth = Agree-bytes (little_word bits)
  Agree-payload (string text size) depth =
      Agree-bind _ _ _ _ (Agree-string text)
        (Agree-if (text_size text == size) _ _ _ _ Agree-some Agree-none)
  Agree-payload (elements vs) depth = Agree-nodes _ _ (λ n.
      Agree-if (ltb n (count_of vs)) _ _ _ _ Agree-none (
        Agree-if (expanded_bytes vs) _ _ _ _
          (Agree-bind _ _ _ _ (Agree-counts (count_of vs) true)
            (Agree-spend (count_of vs) _ _ (Agree-elements vs)))
          (Agree-bind _ _ _ _ (Agree-counts (count_of vs) false) (Agree-values vs (depth + 1)))))
  Agree-payload (packed_bytes bytes) depth = Agree-nodes _ _ (λ n.
      Agree-if (ltb n (length bytes)) _ _ _ _ Agree-none (
        Agree-bind _ _ _ _ (Agree-counts (length bytes) true)
          (Agree-spend (length bytes) _ _ (Agree-packed bytes))))
  Agree-payload (no_elements storage count) depth =
      Agree-if (ltb 1 storage) _ _ _ _ Agree-none (Agree-hash_none count _ _ (Agree-counts 0 true))
  Agree-payload (members vs) depth = Agree-nodes _ _ (λ n.
      Agree-if (ltb n (count_of vs)) _ _ _ _ Agree-none (
        Agree-bind _ _ _ _ (Agree-bytes (little_word (count_of vs))) (Agree-values vs (depth + 1))))
  Agree-payload (no_members count) depth = Agree-hash_none count _ _ (Agree-bytes (little_word 0))
  Agree-payload nothing depth = Agree-some
  Agree-payload unknown_type depth = Agree-none

  Agree-values :
      (vs : Values) (depth : ℕ)
      → Agree (hash_values common_sha256_update vs depth) (hash_values append vs depth)
  Agree-values end depth = Agree-some
  Agree-values (next v vs) depth = Agree-bind _ _ _ _ (Agree-value v depth) (Agree-values vs depth)

-- The hash of an encoding.
abbrev pub hashed : Option Bytes → Option Bytes
hashed none = none
hashed (some message) = some (reference message)

finished :
    (o : Option (Context × ℕ)) (p : Option (Bytes × ℕ))
    → Related o p
    → (o >>= λ d. some (common_sha256_final d.0).0) ≡ hashed (message_of p)
unfolding Related
finished none none h = refl
finished none (some e) h = absurd h
finished (some d) none h = absurd h
finished (some d) (some e) (t, n) = ap some (common_sha256_final-reference d.0 e.0 t)

-- The digest of a value is the hash of its encoding, and is refused just where the value has none,
-- whatever the 64 bytes of the local context hold before.
pub typetree_value_digest-encoding :
    (context : Context) (v : Option Value)
    → length context.block ≡ 64
    → typetree_value_digest context v ≡ hashed (encoding v)
unfolding typetree_value_digest encoding
typetree_value_digest-encoding context none h = refl
typetree_value_digest-encoding context (some v) h = finished _ _ (
    (Agree-bind _ _ _ _ (Agree-bytes domain) (Agree-value v 0)).on (common_sha256_init context) []
      max_nodes (init-Tracks context h))

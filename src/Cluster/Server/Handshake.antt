-- ===== src/Cluster/Server/Handshake.antt =====
-- Who is let in: the comparison of the tokens, and the checks of the first frame.
use mathlib.Core.Path.{subst}
use Prim.Native.Nat.{digits, bit_or-bitwise}
use fyro_db.Prelude.{
  ℕ, zero, suc, ◌+◌, ◌/◌, ◌≤◌, ◌<◌, ◌≡◌, ◌↔◌, refl, sym, ap, ◌∙◌, inl, inr, bit_or, bit_xor, max,
  Bool, true, false, not, ◌||◌, Option, none, some, List, [], ◌∷◌, ◌++◌, ◌≢◌, arith, ◌==◌,
  Bool-cases, Option-cases, ==_iff, length, get_elem?, bytes_eq, bytes_eq_iff,
}
use fyro_db.Prelude.Utf8.{is_utf8}
use fyro_db.Prelude.Bits.{xor_self, xor_assoc, zero-xor, xor-zero}
use fyro_db.Cluster.Topology.{Text}
use fyro_db.Cluster.Transport.Codec.{MessageType, Frame}
use fyro_db.Cluster.Server.{
  PeerContext, split_once, parse_hello, differ_at, to_bit, collect_diff, auth_matches, is_hello,
  is_nil, admit,
}

digits_zero : (n a b : ℕ) → a ≤ n → digits (λ y. y) max n a b ≡ 0 → (a ≡ 0) × (b ≡ 0)
digits_zero zero a b h e = (omega arith, e)
digits_zero (suc n) zero b h e = (refl, e)
digits_zero (suc n) (suc a) b h e =
    let halves = digits_zero n (suc a / 2) (b / 2) (omega arith) (omega arith) in
    absurd (omega (arith, halves.0))

-- The bits set so far stay set.
or_zero : (a b : ℕ) → bit_or a b ≡ 0 → (a ≡ 0) × (b ≡ 0)
or_zero a b e = digits_zero a a b (omega arith) (sym (bit_or-bitwise a b) ∙ e)

xor_zero : (a b : ℕ) → bit_xor a b ≡ 0 → a ≡ b
xor_zero a b e =
    sym (xor-zero a)
    ∙ ap (bit_xor a) (sym (xor_self b))
    ∙ sym (xor_assoc a b b)
    ∙ ap (λ k. bit_xor k b) e
    ∙ zero-xor b

unset : (b : Bool) → to_bit b ≡ 0 → b ≡ false
unset true e = absurd (omega arith)
unset false e = refl

collect_diff_zero :
    (a b : List ℕ) (left index diff : ℕ)
    → collect_diff a b left index diff ≡ 0
    → (diff ≡ 0)
      × ((j : ℕ) → index ≤ j → j < index + left → differ_at (get_elem? a j) (get_elem? b j) ≡ false)
unfolding collect_diff
collect_diff_zero a b zero index diff e = (e, λ j from below. absurd (omega arith))
collect_diff_zero a b (suc left) index diff e =
    let (here, rest) =
      collect_diff_zero a b left (suc index)
        (bit_or diff (to_bit (differ_at (get_elem? a index) (get_elem? b index)))) e in
    let (before, bit) =
      or_zero diff (to_bit (differ_at (get_elem? a index) (get_elem? b index))) here in
    (
      before,
      λ j from below. elim (Bool-cases (j == index)) [
        | inl at ↦
            let same : j ≡ index = ground arith in
            rw same (unset (differ_at (get_elem? a index) (get_elem? b index)) bit)
        | inr on ↦ rest j (ground arith) (omega arith)
      ],
    )

differ_same : (o : Option ℕ) → differ_at o o ≡ false
differ_same none = refl
differ_same (some x) = ground arith

collect_diff_same : (a : List ℕ) (left index : ℕ) → collect_diff a a left index 0 ≡ 0
unfolding collect_diff
collect_diff_same a zero index = refl
collect_diff_same a (suc left) index =
    rw (differ_same (get_elem? a index)) (collect_diff_same a left (suc index))

-- Texts of one length that agree at each index.
agree_eq :
    (a b : List ℕ)
    → length a ≡ length b
    → ((j : ℕ) → j < length a → differ_at (get_elem? a j) (get_elem? b j) ≡ false)
    → a ≡ b
agree_eq [] [] e h = refl
agree_eq [] (y ∷ b) e h = absurd (omega arith)
agree_eq (x ∷ a) [] e h = absurd (omega arith)
agree_eq (x ∷ a) (y ∷ b) e h =
    ground
      (arith, h 0 (omega arith), agree_eq a b (omega arith) (λ j below. h (suc j) (omega arith)))

-- The comparison that looks at every byte whatever the bytes before were accepts a token exactly
-- if it is the expected one.
pub auth_matches_iff :
    (expected received : Text)
    → (auth_matches (some expected) (some received) ≡ true) ↔ (expected ≡ received)
unfolding auth_matches
auth_matches_iff expected received = (
  λ e.
      let (sizes, bytes) =
        collect_diff_zero expected received (max (length expected) (length received)) 0
          (bit_xor (length expected) (length received)) ((==_iff _ 0).0 e) in
      agree_eq expected received (xor_zero _ _ sizes)
        (λ j below. bytes j (omega arith) (omega arith)),
  λ e.
      subst (λ t. auth_matches (some expected) (some t) ≡ true) e
        (rw
          (
            xor_self (length expected),
            collect_diff_same expected (max (length expected) (length expected)) 0,
          )
          refl),
)

split_once_parts :
    (bytes before after : List ℕ)
    → split_once bytes ≡ some (before, after)
    → bytes ≡ before ++ 0 ∷ after
unfolding split_once
split_once_parts [] before after e = absurd (cc)
split_once_parts (b ∷ bytes) before after e = elim (Bool-cases (b == 0)) [
  | inl end ↦ ground arith
  | inr on ↦ elim (Option-cases (split_once bytes)) [
    | inl none_left ↦ absurd (ground arith)
    | inr ((start, rest), found) ↦ ground (arith, split_once_parts bytes start rest found)
  ]
]

parse_hello_parts :
    (payload id token : List ℕ)
    → parse_hello payload ≡ some (id, some token)
    → payload ≡ token ++ 0 ∷ id
unfolding parse_hello
parse_hello_parts payload id token e = elim (Bool-cases (is_utf8 payload)) [
  | inr broken ↦ absurd (ground arith)
  | inl text ↦ elim (Option-cases (split_once payload)) [
    | inl whole ↦ absurd (ground arith)
    | inr ((before, after), found) ↦ ground (arith, split_once_parts payload before after found)
  ]
]

is_hello_lem : (t : MessageType) → is_hello t ≡ true → t ≡ MessageType.hello
is_hello_lem MessageType.hello e = refl
is_hello_lem _ e = absurd (cc)

auth_matches_token :
    (secret : Text) (token : Option Text)
    → auth_matches (some secret) token ≡ true
    → token ≡ some secret
unfolding auth_matches
auth_matches_token secret none e = absurd (cc)
auth_matches_token secret (some received) e = ap some (sym ((auth_matches_iff secret received).0 e))

-- On a node with a secret a peer is let in only by a `Hello` frame that holds exactly the secret,
-- a zero byte and the peer's id, which is not the node's own.
pub admit-token :
    (ctx : PeerContext) (frame : Frame) (secret remote_id : Text)
    → ctx.auth_token ≡ some secret
    → admit ctx frame ≡ some remote_id
    → (frame.message_type ≡ MessageType.hello)
      × (frame.payload ≡ secret ++ 0 ∷ remote_id)
      × (remote_id ≢ ctx.local_id)
unfolding admit
admit-token ctx frame secret remote_id guarded e =
    elim (Bool-cases (not (is_hello frame.message_type) || is_nil frame.payload)) [
      | inl refused ↦ absurd (ground arith)
      | inr greeted ↦ elim (Option-cases (parse_hello frame.payload)) [
        | inl unread ↦ absurd (ground arith)
        | inr ((id, token), parsed) ↦ elim (Bool-cases (auth_matches (some secret) token)) [
          | inr wrong ↦ absurd (ground arith)
          | inl right ↦ elim (Bool-cases (bytes_eq id ctx.local_id)) [
            | inl own ↦ absurd (ground arith)
            | inr other ↦
                let same : id ≡ remote_id = ground arith in
                let with_secret : parse_hello frame.payload ≡ some (id, some secret) =
                  parsed ∙ ap (λ t. some (id, t)) (auth_matches_token secret token right) in
                (
                  is_hello_lem frame.message_type (ground arith),
                  parse_hello_parts frame.payload id secret with_secret
                      ∙ ap (λ t. secret ++ 0 ∷ t) same,
                  λ own. ground (arith, bytes_eq_iff id ctx.local_id),
                )
          ]
        ]
      ]
    ]

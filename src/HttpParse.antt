-- ===== src/HttpParse.antt =====
-- http_parse.c: the decoder of a request or a response head, one byte at a time.
-- A control block's `fn` with its union `u` is a function that updates the caller's variables, of
-- any type `S`. A pointer into the buffer is kept as the bytes from it up to `cur`, newest first
-- (`tok`); `cur - p` is `pos`. A vector that the C code leaves uninitialised has length 0; its
-- pointer is taken as NULL.
pub mod Bounds
pub mod Decode
pub mod Dispatch
pub mod Keeps
pub mod Print
pub mod Runs
pub mod Version
use Prim.Native.Nat.{bit_or}
use ashttpd.Prelude.{
  ℕ, zero, suc, ◌+◌, ◌-◌, ◌*◌, ◌/◌, ◌^◌, List, [], ◌∷◌, reverse, Option, none, some, Bool, true,
  false, ◌&&◌, ◌||◌, not, ltb, leb, ◌==◌, if◌then◌else◌, length, drop, get_elem?, codes, ℤ, pos,
  negsuc, is_zero, is_neg,
}
use ashttpd.Vec.{RoVec, null, vec, v_len, vtouint, vstrcmp_fast}

abbrev pub http_ver_unknown : ℕ
http_ver_unknown = 0xff

unfoldable pub is_digit : ℕ → Bool
is_digit c = leb 48 c && leb c 57

-- The test of `v_len` and the reads `s[0]` to `s[7]` are the pattern.
unfoldable pub http_proto_version : RoVec → ℕ
unfolding is_digit
http_proto_version (vec (h ∷ t ∷ u ∷ p ∷ slash ∷ maj ∷ dot ∷ min ∷ [])) =
    if not ((h == b'H') && (t == b'T') && (u == b'T') && (p == b'P') && (slash == b'/'))
    then http_ver_unknown
    else if not (dot == b'.')
    then http_ver_unknown
    else if not (is_digit maj) || not (is_digit min)
    then http_ver_unknown
    else bit_or ((min - 48) * 2 ^ 4) (maj - 48)
http_proto_version _ = http_ver_unknown

-- `h->u.vec`, which may be NULL, is the option.
unfoldable pub htype_string : {S : Type 0} → Option (RoVec → S → S) → RoVec → S → S
htype_string none v s = s
htype_string (some set) v s = set v s

unfoldable pub htype_int : {S : Type 0} → (ℤ → S → S) → RoVec → S → S
htype_int set v s =
    let (val, len) = vtouint v in
    if (len == 0) || ltb (2 ^ 31 - 1) val then set (negsuc 0) s else set (pos val) s

unfoldable pub htype_code : {S : Type 0} → (ℕ → S → S) → RoVec → S → S
htype_code set v s =
    let (val, len) = vtouint v in if not (len == 3) || ltb 999 val then set 0xffff s else set val s

-- A decode control block.
pub record Hcb (S : Type 0) : Type 0 where
  pub label : List ℕ
  pub fn : RoVec → S → S

-- The loop of `dispatch_hdr`: `d` has `n` entries left to look at. `n` falls in every round, so
-- `num_dcb + 1` units of fuel are enough. The result is the entry whose `fn` is called.
unfoldable pub search_hdr : {S : Type 0} → ℕ → List (Hcb S) → ℕ → RoVec → Option (Hcb S)
search_hdr zero d n k = none
search_hdr (suc f) d zero k = none
search_hdr {S} (suc f) d (suc m) k =
    let i = suc m / 2 in
    elim (get_elem? d i) [
      | none ↦ none
      | some e ↦
          let ret = vstrcmp_fast k e.label in
          let left : Option (Hcb S) = search_hdr f d i k in
          let right : Option (Hcb S) = search_hdr f (drop (i + 1) d) (suc m - (i + 1)) k in
          if is_neg ret then left else if not (is_zero ret) then right else some e
    ]

unfoldable pub call : {S : Type 0} → Option (Hcb S) → RoVec → S → S
call none v s = s
call (some e) v s = e.fn v s

unfoldable pub dispatch_hdr : {S : Type 0} → List (Hcb S) → RoVec → RoVec → S → S
unfolding call
dispatch_hdr dcb k v s = call (search_hdr (length dcb + 1) dcb (length dcb) k) v s

-- The labels of the computed `goto`; `finished` is `cur = end`.
pub data State : Type 0 where
  state0 state1 state2 state3 state4 finished : State

pub record Scan (S : Type 0) : Type 0 where
  pub state : State
  pub i : ℕ
  pub hv0 : RoVec
  pub hv1 : RoVec
  pub hv2 : RoVec
  pub tok : List ℕ
  pub key : RoVec
  pub pos : ℕ
  pub ret : ℕ
  pub out : S

unfoldable pub set_hv : {S : Type 0} → RoVec → Scan S → Scan S
set_hv v sc =
    if sc.i == 0
    then record sc { hv0 = v }
    else if sc.i == 1
    then record sc { hv1 = v }
    else record sc { hv2 = v }

-- `if ( v_len && *(cur - 1) == '\r' ) v_len--`
unfoldable pub strip_cr : List ℕ → List ℕ
strip_cr [] = []
strip_cr (c ∷ tok) = if c == 13 then tok else c ∷ tok

unfoldable pub step0 : {S : Type 0} → ℕ → Scan S → Scan S
unfolding set_hv
step0 c sc =
    if not (c == 32) then record (set_hv (vec []) sc) { state = state1; tok = c ∷ [] } else sc

unfoldable pub step1 : {S : Type 0} → ℕ → Scan S → Scan S
unfolding set_hv strip_cr
step1 c sc =
    if c == 32
    then (if ltb sc.i 2
        then record (set_hv (vec (reverse sc.tok)) sc) { state = state0; i = sc.i + 1 }
        else record sc { tok = c ∷ sc.tok })
    else if c == 10
    then record (set_hv (vec (reverse (strip_cr sc.tok))) sc) {
      state = state2;
      tok = [];
      ret = sc.pos + 1;
    }
    else record sc { tok = c ∷ sc.tok }

unfoldable pub step2 : {S : Type 0} → ℕ → Scan S → Scan S
step2 c sc =
    if c == 58
    then record sc { key = vec (reverse sc.tok); state = state3 }
    else if c == 10
    then record sc { ret = sc.pos + 1; state = finished }
    else record sc { tok = c ∷ sc.tok }

unfoldable pub step3 : {S : Type 0} → ℕ → Scan S → Scan S
step3 c sc = if not (c == 32) then record sc { tok = c ∷ []; state = state4 } else sc

unfoldable pub step4 : {S : Type 0} → List (Hcb S) → ℕ → Scan S → Scan S
unfolding strip_cr
step4 hdrs c sc =
    if c == 10
    then record sc {
      out = dispatch_hdr hdrs sc.key (vec (reverse (strip_cr sc.tok))) sc.out;
      tok = [];
      state = state2;
    }
    else record sc { tok = c ∷ sc.tok }

unfoldable pub dispatch : {S : Type 0} → List (Hcb S) → State → ℕ → Scan S → Scan S
unfolding step0 step1 step2 step3 step4
dispatch hdrs state0 = step0
dispatch hdrs state1 = step1
dispatch hdrs state2 = step2
dispatch hdrs state3 = step3
dispatch hdrs state4 = step4 hdrs
dispatch hdrs finished = λ c sc. sc

-- One round of the loop, with its `cur++`.
unfoldable pub round : {S : Type 0} → List (Hcb S) → ℕ → Scan S → Scan S
unfolding dispatch
round hdrs c sc = let sc' = dispatch hdrs sc.state c sc in record sc' { pos = sc.pos + 1 }

unfoldable pub scan : {S : Type 0} → List (Hcb S) → List ℕ → Scan S → Scan S
unfolding round
scan hdrs [] sc = sc
scan hdrs (c ∷ cs) sc = scan hdrs cs (round hdrs c sc)

abbrev pub scan_init : {S : Type 0} → S → Scan S
scan_init s = record {
  state = state0;
  i = 0;
  hv0 = null;
  hv1 = null;
  hv2 = null;
  tok = [];
  key = null;
  pos = 0;
  ret = 0;
  out = s;
}

-- The first three control blocks, and those behind them.
pub record Table (S : Type 0) : Type 0 where
  pub first : Hcb S
  pub second : Hcb S
  pub third : Hcb S
  pub hdrs : List (Hcb S)

-- The tail of `http_decode_buf` behind its loop.
unfoldable pub finish : {S : Type 0} → Table S → Scan S → ℕ × S
finish d sc =
    if (v_len sc.hv0 == 0) || (v_len sc.hv1 == 0)
    then (0, sc.out)
    else (sc.ret, d.third.fn sc.hv2 (d.second.fn sc.hv1 (d.first.fn sc.hv0 sc.out)))

-- The result and the caller's variables after the call, on the bytes from `p` to `end`.
unfoldable pub http_decode_buf : {S : Type 0} → Table S → List ℕ → S → ℕ × S
unfolding scan finish
http_decode_buf d p s = finish d (scan d.hdrs p (scan_init s))

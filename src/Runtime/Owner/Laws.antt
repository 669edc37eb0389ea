-- ===== src/Runtime/Owner/Laws.antt =====
-- Whether the queue takes a default owner.
use eal_sync.Prelude.{
  ℕ, suc, ◌+◌, ◌≤◌, ◌≡◌, refl, ◌∙◌, Bool, true, false, not, ◌||◌, [], ◌∷◌, ◌++◌, reverse, some, any,
  take, length, length-take-le, ltb, All, All-take, arith, Bool-cases, inl, inr,
}
use mathlib.Core.List.{reverse-cons}
use eal_sync.Prelude.Text.{
  Text, codes, byte_len, is_whitespace, is_empty, trim, trim_end, drop_while, drop_end_while,
}
use eal_sync.Prelude.Member.{any-append}
use eal_sync.Prelude.Int.{within_ℤ}
use eal_sync.Prelude.Result.{ok}
use eal_sync.Queue.Lease.{LeaseArgs, check_lease}
use eal_sync.Runtime.Owner.{host_part, default_owner}

byte_len-append : (s t : Text) → byte_len (s ++ t) ≡ byte_len s + byte_len t
unfolding byte_len
byte_len-append [] t = omega arith
byte_len-append (c ∷ s) t = omega (arith, byte_len-append s t)

abbrev pub IsAscii : Text → Type 0
IsAscii s = All (λ c. ltb c 0x80 ≡ true) s

byte_len-ascii : (s : Text) → IsAscii s → byte_len s ≡ length s
unfolding byte_len
byte_len-ascii [] h = refl
byte_len-ascii (c ∷ s) (h, hs) = rw h (omega (arith, byte_len-ascii s hs))

abbrev is_word : ℕ → Bool
is_word c = not (is_whitespace c)

any-reverse : (p : ℕ → Bool) (s : Text) → any p (reverse s) ≡ any p s
any-reverse p [] = refl
any-reverse p (c ∷ s) =
    rw (reverse-cons c s) (ground (arith, any-append p (reverse s) (c ∷ []), any-reverse p s))

any-drop_while : (s : Text) → any is_word (drop_while is_whitespace s) ≡ any is_word s
unfolding drop_while
any-drop_while [] = refl
any-drop_while (c ∷ s) = elim (Bool-cases (is_whitespace c)) [
  | inl blank ↦ rw blank (any-drop_while s)
  | inr word ↦ rw word (rw word refl)
]

any-trim : (s : Text) → any is_word (trim s) ≡ any is_word s
unfolding trim trim_end drop_end_while
any-trim s =
    let front = drop_while is_whitespace s in
    any-reverse is_word (drop_while is_whitespace (reverse front))
    ∙ any-drop_while (reverse front)
    ∙ any-reverse is_word front
    ∙ any-drop_while s

-- A text with a character that is not white space is not blank.
filled : (s : Text) → any is_word s ≡ true → is_empty (trim s) ≡ false
filled s h = nonempty (trim s) (any-trim s ∙ h)
  where
    nonempty : (t : Text) → any is_word t ≡ true → is_empty t ≡ false
    nonempty [] e = absurd (ground (arith, e))
    nonempty (c ∷ t) e = refl

worker_len : byte_len (codes "worker") ≡ 6
unfolding byte_len
worker_len = refl

dash_len : (s : Text) → byte_len (codes "-" ++ s) ≡ suc (byte_len s)
unfolding byte_len
dash_len s = omega arith

with_dash : (host s : Text) → (any is_word host || any is_word (codes "-" ++ s)) ≡ true
unfolding is_whitespace
with_dash host s = ground arith

host_part-short : (hostname : Text) → IsAscii hostname → byte_len (host_part (some hostname)) ≤ 120
unfolding host_part
host_part-short hostname ascii = elim (Bool-cases (is_empty (trim (take 120 hostname)))) [
  | inl blank ↦ rw blank (omega (arith, worker_len))
  | inr used ↦ rw used (
      omega (
        arith,
        byte_len-ascii (take 120 hostname) (All-take _ 120 hostname ascii),
        length-take-le 120 hostname,
      ))
]

check_lease_accepts :
    (owner : Text) (args : LeaseArgs)
    → is_empty (trim owner) ≡ false
    → byte_len owner ≤ 200
    → within_ℤ 30 3_600 args.lease_seconds ≡ true
    → check_lease (record args { owner = owner }) ≡ ok tt
unfolding check_lease
check_lease_accepts owner args shown size seconds =
    let small : ltb 200 (byte_len owner) ≡ false = not_more size in rw (shown, small, seconds) refl
  where
    not_more : {n : ℕ} → n ≤ 200 → ltb 200 n ≡ false
    not_more h = ground (arith, h)

-- With a host name in ASCII, a process id of at most ten digits and a UUID of 36 characters, the default
-- owner is one that the queue leases to.
default_owner-accepted :
    (hostname process_id uuid : Text) (args : LeaseArgs)
    → IsAscii hostname
    → byte_len process_id ≤ 10
    → byte_len uuid ≡ 36
    → within_ℤ 30 3_600 args.lease_seconds ≡ true
    → check_lease (record args { owner = default_owner (some hostname) process_id uuid }) ≡ ok tt
unfolding check_lease default_owner
default_owner-accepted hostname process_id uuid args ascii pid id seconds =
    let host = host_part (some hostname) in
    let tail = codes "-" ++ (process_id ++ (codes "-" ++ uuid)) in
    let size : byte_len (host ++ tail) ≤ 200 = omega (
      arith,
      byte_len-append host tail,
      byte_len-append process_id (codes "-" ++ uuid),
      dash_len (process_id ++ (codes "-" ++ uuid)),
      dash_len uuid,
      host_part-short hostname ascii,
      pid,
      id,
    ) in
    let shown =
      filled (host ++ tail)
        (any-append is_word host tail ∙ with_dash host (process_id ++ (codes "-" ++ uuid))) in
    check_lease_accepts (host ++ tail) args shown size seconds

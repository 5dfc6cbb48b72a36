-- ===== src/Trx/Connections.antt =====
-- The connections that the table of src/trx_init.c stands for: how often each descriptor is in use, and
-- not in which entry.
use soft_bts.Base.{
  ℕ, zero, suc, ◌+◌, ◌*◌, ◌≤◌, ◌≡◌, ◌≢◌, ◌⊎◌, refl, ap, sym, ◌∙◌, Bool, true, false, Option, none,
  some, List, [], ◌∷◌, get_elem?, set, length, arith, Option-cases, inl, inr, if◌then◌else◌, ltb,
  lt→ltb, ◌==◌,
}
use mathlib.Core.List.Permᴰ
use mathlib.Core.List.{Permᴰ}
use mathlib.Core.Quot
use mathlib.Core.Quot.{Quot, Quot-set}
use native.Mathlib.Nat.{ℕ_set}
use soft_bts.Base.Outcome.{ok}
use soft_bts.Bts.{Bts, Net}
use soft_bts.Link.{Stack, Socket, Received, failed, got, rc, received_bytes, is_zero}
use soft_bts.Buffer.{Buffer, store_list, load16, htons}
use soft_bts.Link.Receive.{announced, receive_msg-rc}
use soft_bts.Trx.Close.{trx_cb_lem, trx_cb_unknown, returned}
use soft_bts.Trx.Table.{
  Fd, find_index, find_index-Finds, find_empty_record, find_empty_record-Finds,
  find_empty_record-none,
}
use soft_bts.Trx.Capacity.{free, free-full, free-set, fds-take_entry}
use soft_bts.Trx.{Trx, Answers, accept_connection, place_connection, trx_cb, closed, unlisten}

-- The descriptors in use, in the order of their entries.
abbrev pub members : List Fd → List ℕ
members [] = []
members (none ∷ fds) = members fds
members (some sd ∷ fds) = sd ∷ members fds

-- Descriptors, without an order.
abbrev pub Connections : Type 0
Connections = Quot (Permᴰ {A = ℕ})

length-Permᴰ : (xs ys : List ℕ) → Permᴰ xs ys → length xs ≡ length ys
length-Permᴰ _ _ Permᴰ.nil = refl
length-Permᴰ _ _ (Permᴰ.cons e p) = ap suc (length-Permᴰ _ _ p)
length-Permᴰ _ _ (Permᴰ.swap e f) = refl
length-Permᴰ _ _ (Permᴰ.trans p q) = length-Permᴰ _ _ p ∙ length-Permᴰ _ _ q

pub size : Connections → ℕ
size = Quot.lift ℕ_set length length-Permᴰ

pub put : ℕ → Connections → Connections
put sd = Quot.lift Quot-set (λ xs. Quot.mk (sd ∷ xs)) (λ xs ys h. Quot.sound (Permᴰ.cons refl h))

-- What a table stands for.
pub connections : Trx → Connections
connections t = Quot.mk (members t.fds)

-- Under another member, a new one can go in front.
under : (k sd : ℕ) (xs ys : List ℕ) → Permᴰ xs (sd ∷ ys) → Permᴰ (k ∷ xs) (sd ∷ k ∷ ys)
under k sd xs ys h = Permᴰ.trans (Permᴰ.cons refl h) (Permᴰ.swap refl refl)

members-taken :
    (fds : List Fd) (i sd : ℕ)
    → get_elem? fds i ≡ some none
    → Permᴰ (members (set fds i (some sd))) (sd ∷ members fds)
members-taken [] i sd e = cc
members-taken (none ∷ fds) zero sd e = Permᴰ.refl _
members-taken (some k ∷ fds) zero sd e = cc
members-taken (none ∷ fds) (suc i) sd e = members-taken fds i sd e
members-taken (some k ∷ fds) (suc i) sd e = under k sd _ _ (members-taken fds i sd e)

members-freed :
    (fds : List Fd) (i sd : ℕ)
    → get_elem? fds i ≡ some (some sd)
    → Permᴰ (members fds) (sd ∷ members (set fds i none))
members-freed [] i sd e = cc
members-freed (none ∷ fds) zero sd e = cc
members-freed (some k ∷ fds) zero sd e = let same : k ≡ sd = cc in Permᴰ.cons same (Permᴰ.refl _)
members-freed (none ∷ fds) (suc i) sd e = members-freed fds i sd e
members-freed (some k ∷ fds) (suc i) sd e = under k sd _ _ (members-freed fds i sd e)

free-members : (fds : List Fd) → free fds + length (members fds) ≡ length fds
unfolding free
free-members [] = refl
free-members (none ∷ fds) = omega (arith, free-members fds)
free-members (some k ∷ fds) = omega (arith, free-members fds)

-- A caller is let in as long as there are fewer than four connections.
pub admit : Option ℕ → Connections → Connections
admit none c = c
admit (some sd) c = if ltb (size c) 4 then put sd c else c

connections-place_connection :
    (ans : Answers) (t : Trx) (sd : Option ℕ)
    → length t.fds ≡ 4
    → connections (place_connection ans (find_empty_record t.fds) sd t).1 ≡ admit sd (connections t)
unfolding place_connection connections admit size put
connections-place_connection ans t none four = refl
connections-place_connection ans t (some sd) four = elim (Option-cases (find_empty_record t.fds)) [
  | inl e ↦
      let zero_free = free-full t.fds (find_empty_record-none t.fds e) in
      let count = free-members t.fds in
      let full : ltb (length (members t.fds)) 4 ≡ false = ground arith in rw (e, full) refl
  | inr (i, e) ↦
      let here = (find_empty_record-Finds t.fds e).here in
      let less = free-set t.fds i sd here in
      let count = free-members t.fds in
      let room = lt→ltb (length (members t.fds)) 4 (omega arith) in
      rw (e, room, fds-take_entry ans i sd t) (Quot.sound (members-taken t.fds i sd here))
]

-- `accept_connection` on the connections: it lets the caller in where there is room, whatever becomes
-- of the registration and the write, and changes nothing otherwise.
pub connections-accept_connection :
    (ans : Answers) (t : Trx)
    → length t.fds ≡ 4
    → connections (accept_connection ans t).1 ≡ admit ans.accepted (connections t)
unfolding accept_connection
connections-accept_connection ans t four = connections-place_connection ans t ans.accepted four

-- No more connections than entries.
pub size-connections : (t : Trx) → size (connections t) ≤ length t.fds
unfolding size connections
size-connections t = let count = free-members t.fds in omega arith

fds-if : (b : Bool) (t u v : Trx) → (if b then t else u) ≡ v → v.fds ≡ (if b then t.fds else u.fds)
fds-if true t u v e = ap (λ x. x.fds) (sym e)
fds-if false t u v e = ap (λ x. x.fds) (sym e)

-- What a read leaves, where the connection is lost, and where it is not.
abbrev Left : Bool → ℕ → Trx → Trx → Type 0
Left true sd t u = connections t ≡ put sd (connections u)
Left false sd t u = connections u ≡ connections t

connections-fds :
    (t u : Trx) (i sd : ℕ) (b : Bool)
    → get_elem? t.fds i ≡ some (some sd)
    → u.fds ≡ (if b then set t.fds i none else t.fds)
    → Left b sd t u
unfolding connections put
connections-fds t u i sd true here e =
    Quot.sound (members-freed t.fds i sd here) ∙ ap (λ fds. Quot.mk (sd ∷ members fds)) (sym e)
connections-fds t u i sd false here e = ap (λ fds. Quot.mk (members fds)) e

-- The length that a header announces which arrives whole, in network byte order. The length behind one
-- that is cut short depends on what the buffer held.
abbrev pub Announces : Received → ℕ → Type 0
Announces (got (hi ∷ lo ∷ proto ∷ [])) n = n ≡ htons (hi + 256 * lo)
Announces _ n = Unit {0}

-- What a message from the descriptor does to the connections: where `recv` gives no bytes at the
-- length that the header announces it is taken for lost, and it stays otherwise.
abbrev pub Heard : Socket → ℕ → Connections → Connections → Type 0
Heard sock sd c c' =
    (n : ℕ) × Announces sock.header n
    × (((sock.body n ≡ got []) × (c ≡ put sd c')) ⊎ ((sock.body n ≢ got []) × (c' ≡ c)))

Announces-announced :
    (x : Received) (b : Buffer) → Announces x (htons (load16 (store_list 0 (received_bytes x) b) 0))
Announces-announced failed b = tt
Announces-announced (got []) b = tt
Announces-announced (got (hi ∷ [])) b = tt
Announces-announced (got (hi ∷ lo ∷ [])) b = tt
Announces-announced (got (hi ∷ lo ∷ proto ∷ [])) b = refl
Announces-announced (got (hi ∷ lo ∷ proto ∷ more ∷ rest)) b = tt

Heard-Left :
    (sock : Socket) (sd n : ℕ) (t u : Trx) (x : Received)
    → Announces sock.header n
    → sock.body n ≡ x
    → Left (is_zero (rc x)) sd t u
    → Heard sock sd (connections t) (connections u)
Heard-Left sock sd n t u failed a e left = (n, a, inr (λ k. cc, left))
Heard-Left sock sd n t u (got []) a e left = (n, a, inl (e, left))
Heard-Left sock sd n t u (got (b ∷ bs)) a e left =
    let some_bytes : (suc (length bs) == 0) ≡ false = ground arith in
    (n, a, inr (λ k. cc, rw some_bytes at left))

-- `trx_cb` on the connections, where it returns.
pub connections-trx_cb :
    (net : Net) (stack : Stack) (fuel : ℕ) (sock : Socket) (sd : ℕ) (s : Bts) (t : Trx)
    → {s' : Bts} {t' : Trx} → trx_cb net stack fuel sock sd s t ≡ ok (s', t')
    → Heard sock sd (connections t) (connections t')
connections-trx_cb net stack fuel sock sd s t {s'} {t'} e =
    elim (Option-cases (find_index (some sd) t.fds)) [
      | inl unknown ↦ cc (trx_cb_unknown net stack fuel sock sd s t unknown)
      | inr (i, found) ↦
          let (m, em) = returned net stack fuel sock sd s t i found e in
          let does = trx_cb_lem net stack fuel sock sd s t i m.0 m.1 found em in
          let table : (if is_zero m.0 then given_up i m.1 else record t { msg_trx = m.1.buf })
              ≡ t' =
            cc in
          let read =
            receive_msg-rc net stack fuel sd sock (record s { buf = t.msg_trx }) m.0 m.1 em in
          let here = (find_index-Finds (some sd) t.fds found).here in
          let left =
            connections-fds t t' i sd (is_zero m.0) here
              (fds-if (is_zero m.0) (given_up i m.1) (record t { msg_trx = m.1.buf }) t' table) in
          Heard-Left sock sd (announced sock t.msg_trx) t t' (sock.body (announced sock t.msg_trx))
            (Announces-announced sock.header t.msg_trx) refl (rw read at left)
    ]
  where
    given_up : ℕ → Bts → Trx
    given_up i s1 = record t {
      msg_trx = s1.buf;
      fds = set t.fds i none;
      actions = unlisten i ∷ closed sd ∷ t.actions;
    }

-- ===== src/Rsl/Placed.antt =====
-- Where the fields of a System Information message with a list of cells come to lie in the buffer.
use soft_bts.Base.{
  ℕ, zero, suc, ◌+◌, ◌*◌, ◌<◌, ◌≡◌, refl, ap, sym, ◌∙◌, List, [], ◌∷◌, ◌++◌, length, arith,
}
use mathlib.Core.Path.{ap₂}
use soft_bts.Buffer.{Buffer, store, store_list, bytes}
use soft_bts.Link.Receive.{store_list_below}
use soft_bts.Rsl.Layout.{HeadFits, RachFits, head_bytes}
use soft_bts.Rsl.Info.{Head, RachControl, head, rach_control}

store_list-append :
    (i : ℕ) (xs ys : List ℕ) (b : Buffer)
    → store_list i (xs ++ ys) b ≡ store_list (i + length xs) ys (store_list i xs b)
store_list-append i [] ys b = ap (λ k. store_list k ys b) (omega arith)
store_list-append i (x ∷ xs) ys b =
    store_list-append (i + 1) xs ys (store i x b)
    ∙ ap (λ k. store_list k ys (store_list (i + 1) xs (store i x b))) (omega arith)

bytes-agree :
    (a b : Buffer) (i n : ℕ) → ((j : ℕ) → j < i + n → a j ≡ b j) → bytes a i n ≡ bytes b i n
bytes-agree a b i zero h = refl
bytes-agree a b i (suc n) h =
    ap₂ (λ x xs. x ∷ xs) (h i (omega arith)) (bytes-agree a b (i + 1) n (λ j lt. h j (omega arith)))

bytes-store_list : (i : ℕ) (xs : List ℕ) (b : Buffer) → bytes (store_list i xs b) i (length xs) ≡ xs
bytes-store_list i [] b = refl
bytes-store_list i (x ∷ xs) b =
    ap₂ (λ y ys. y ∷ ys) (store_list_below (i + 1) i xs (store i x b) (omega arith) ∙ ground arith)
      (bytes-store_list (i + 1) xs (store i x b))

-- Each structure from the bytes at its place.
module _ (c : Buffer) (i : ℕ) where
  pub head_lem :
      (h : Head)
      → HeadFits h
      → c i ≡ h.fb + 4 * h.plv
      → c (i + 1) ≡ h.discr + 16 * h.skip
      → c (i + 2) ≡ h.msg_type
      → head c i ≡ h
  unfolding head
  head_lem h fits e0 e1 e2 = ground arith

  pub rach_control_lem :
      (r : RachControl)
      → RachFits r
      → c i ≡ r.re + 2 * r.cell_bar_access + 4 * r.tx_integer + 64 * r.max_retrans
      → c (i + 1) ≡ r.ac8_9 + 4 * r.ec + 8 * r.ac15_11
      → c (i + 2) ≡ r.ac7_0
      → rach_control c i ≡ r
  unfolding rach_control
  rach_control_lem r fits e0 e1 e2 = ground arith

-- Four bytes, fifteen in a list, and more behind them, from offset 11 on.
module _ (f0 f1 f2 f3 : ℕ) (mid tail : List ℕ) (b : Buffer) (fifteen : length mid ≡ 15) where
  pub front : Buffer
  front = store_list 11 (f0 ∷ f1 ∷ f2 ∷ f3 ∷ []) b

  pub placed :
      store_list 11 (f0 ∷ f1 ∷ f2 ∷ f3 ∷ (mid ++ tail)) b
      ≡ store_list 30 tail (store_list 15 mid front)
  unfolding front
  placed =
      store_list-append 15 mid tail (store_list 11 (f0 ∷ f1 ∷ f2 ∷ f3 ∷ []) b)
      ∙ ap (λ n. store_list n tail (store_list 15 mid (store_list 11 (f0 ∷ f1 ∷ f2 ∷ f3 ∷ []) b)))
          (omega (arith, fifteen))

  abbrev pub whole : Buffer
  whole = store_list 11 (f0 ∷ f1 ∷ f2 ∷ f3 ∷ (mid ++ tail)) b

  first : (j : ℕ) → j < 15 → whole j ≡ front j
  first j lt =
      ap (λ a. a j) placed
      ∙ store_list_below 30 j tail (store_list 15 mid front) (omega arith)
      ∙ store_list_below 15 j mid front lt

  pub middle : bytes whole 15 15 ≡ mid
  middle =
      ap (λ a. bytes a 15 15) placed
      ∙ bytes-agree _ (store_list 15 mid front) 15 15
          (λ j lt. store_list_below 30 j tail (store_list 15 mid front) lt)
      ∙ ap (λ n. bytes (store_list 15 mid front) 15 n) (sym fifteen)
      ∙ bytes-store_list 15 mid front

-- A message with its head in front.
module _ (h : Head) (fits : HeadFits h) (f3 : ℕ) (mid tail : List ℕ) (b : Buffer)
    (fifteen : length mid ≡ 15) where
  abbrev pub message : Buffer
  message = store_list 11 (head_bytes h ++ (f3 ∷ (mid ++ tail))) b

  at_front :
      (j : ℕ)
      → j < 15
      → message j
        ≡ front (h.fb + 4 * h.plv) (h.discr + 16 * h.skip) h.msg_type f3 mid tail b fifteen j
  at_front j lt = first _ _ _ f3 mid tail b fifteen j lt

  pub head-message : head message 11 ≡ h
  unfolding front
  head-message =
      head_lem message 11 h fits (at_front 11 (omega arith)) (at_front 12 (omega arith))
        (at_front 13 (omega arith))

  pub at_14 : message 14 ≡ f3
  unfolding front
  at_14 = at_front 14 (omega arith)

  pub at_15 : bytes message 15 15 ≡ mid
  at_15 = middle _ _ _ f3 mid tail b fifteen

  -- What lies behind the list is stored over something.
  pub behind : (base : Buffer) × (message ≡ store_list 30 tail base)
  behind = (_, placed _ _ _ f3 mid tail b fifteen)

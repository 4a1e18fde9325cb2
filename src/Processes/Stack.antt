-- ===== src/Processes/Stack.antt =====
-- kernel/process.c: the kernel stack of a new process, as its first switch finds it.
use risc_v_os.Base.{
  ℕ, zero, suc, ◌+◌, ◌-◌, ◌*◌, ◌^◌, ◌≤◌, ◌<◌, ◌≡◌, ◌⊎◌, inr, refl, ap, ◌++◌, ◌∙◌, arith, List, [],
  ◌∷◌, All, length, get_or, replicate,
}
use risc_v_os.Memory.{Memory, memset_lem}
use risc_v_os.Paging.{load32, store32}
use risc_v_os.Paging.Words.{load32-store32, load32-ext, store32_elsewhere}
use risc_v_os.Processes.{Layout, push_words, initial_stack, stack_size, switch_frame}

pub push_words-sp :
    (ws : List ℕ) (sp : ℕ) (m : Memory) → (push_words ws sp m).0 ≡ sp - 4 * length ws
unfolding push_words
push_words-sp [] sp m = omega arith
push_words-sp (w ∷ ws) sp m = omega (arith, push_words-sp ws (sp - 4) (store32 m (sp - 4) w))

push_words_elsewhere :
    (ws : List ℕ) (sp : ℕ) (m : Memory) (x : ℕ)
    → 4 * length ws ≤ sp
    → (x < sp - 4 * length ws) ⊎ (sp ≤ x)
    → (push_words ws sp m).1 x ≡ m x
unfolding push_words
push_words_elsewhere [] sp m x room out = refl
push_words_elsewhere (w ∷ ws) sp m x room out =
    push_words_elsewhere ws (sp - 4) (store32 m (sp - 4) w) x (omega arith) (ground arith)
    ∙ store32_elsewhere m (sp - 4) w x (ground arith)

-- Each word stands where it was pushed.
push_words_word :
    (ws : List ℕ) (sp : ℕ) (m : Memory) (j : ℕ)
    → 4 * length ws ≤ sp
    → All (λ w. w < 2 ^ 32) ws
    → j < length ws
    → load32 (push_words ws sp m).1 (sp - 4 * (j + 1)) ≡ get_or ws j 0
unfolding push_words
push_words_word [] sp m j room small lt = absurd (omega arith)
push_words_word (w ∷ ws) sp m zero room (small, rest) lt =
    load32-ext (store32 m (sp - 4) w) (push_words ws (sp - 4) (store32 m (sp - 4) w)).1 (sp - 4)
      (λ x above below.
        push_words_elsewhere ws (sp - 4) (store32 m (sp - 4) w) x (omega arith) (inr above))
    ∙ load32-store32 m (sp - 4) w small
push_words_word (w ∷ ws) sp m (suc j) room (small, rest) lt =
    ap (load32 (push_words ws (sp - 4) (store32 m (sp - 4) w)).1)
      (let z : sp - 4 * (suc j + 1) ≡ sp - 4 - 4 * (j + 1) = omega arith in z)
    ∙ push_words_word ws (sp - 4) (store32 m (sp - 4) w) j (omega arith) rest (omega arith)

zeros_in_front : (n j : ℕ) (ws : List ℕ) → j < n → get_or (replicate n 0 ++ ws) j 0 ≡ 0
zeros_in_front zero j ws lt = absurd (omega arith)
zeros_in_front (suc n) zero ws lt = refl
zeros_in_front (suc n) (suc j) ws lt = zeros_in_front n j ws (omega arith)

module _ (ly : Layout) (i : ℕ) (m : Memory) (room : stack_size ≤ ly.stack_top i) where
  pub initial_stack-sp : (initial_stack ly i m).0 ≡ ly.stack_top i - 52
  unfolding initial_stack
  initial_stack-sp = push_words-sp (switch_frame ly.user_entry) (ly.stack_top i) _

  -- Nothing outside the stack is touched.
  pub initial_stack_elsewhere :
      (x : ℕ)
      → (x < ly.stack_top i - stack_size) ⊎ (ly.stack_top i ≤ x)
      → (initial_stack ly i m).1 x ≡ m x
  unfolding initial_stack
  initial_stack_elsewhere x out =
      push_words_elsewhere (switch_frame ly.user_entry) (ly.stack_top i) _ x (omega arith)
        (ground arith)
      ∙ ground (arith, memset_lem m (ly.stack_top i - stack_size) 0 204 x)

  -- The return address that `switch_context` restores, and the twelve saved registers.
  pub initial_stack-ra :
      ly.user_entry < 2 ^ 32 → load32 (initial_stack ly i m).1 (ly.stack_top i - 52) ≡ ly.user_entry
  unfolding initial_stack
  initial_stack-ra small =
      push_words_word (switch_frame ly.user_entry) (ly.stack_top i) _ 12 (omega arith)
        (omega (arith, small)) (omega arith)

  pub initial_stack-saved :
      (j : ℕ)
      → j < 12
      → ly.user_entry < 2 ^ 32
      → load32 (initial_stack ly i m).1 (ly.stack_top i - 4 * (j + 1)) ≡ 0
  unfolding initial_stack
  initial_stack-saved j lt small =
      push_words_word (switch_frame ly.user_entry) (ly.stack_top i) _ j (omega arith)
        (omega (arith, small)) (omega arith)
      ∙ zeros_in_front 12 j (ly.user_entry ∷ []) lt

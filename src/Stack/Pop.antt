-- ===== src/Stack/Pop.antt =====
-- `smp_stack_pop` on a well-formed stack.
use smpcil.Base.{
  ◌+◌, ◌^◌, ◌<◌, ◌≡◌, false, ◌||◌, some, List, ◌∷◌, arith, Ptr, null, ◌==◌, length, to_int,
}
use smpcil.Store.{Store}
use smpcil.Store.Returns.{Returns, returns, load-ok, modify-ok, Holds-poke_self}
use smpcil.Dll.Seg.{has}
use smpcil.Stack.{Stack, StackNode, pop, stack_empty, stack_length}
use smpcil.Stack.Chain.{Chain-Top, Top, top, Chain-poke, IsStack}
use smpcil.Stack.Push.{Loose}

module _ {D Pool : Type 0} where
  stack_empty-eq :
      (stack : Stack D Pool)
      → stack.curr_size < 2 ^ 31
      → stack_empty stack ≡ ((stack.curr_size == 0) || (stack.top == null))
  unfolding stack_empty stack_length to_int
  stack_empty-eq stack short = ground (arith, short)

  -- `smp_stack_pop` takes the top node off a stack whose count fits an `int`, and hands it over
  -- with its bytes, on neither chain.
  pub pop-pops :
      {s : Store (StackNode D)} (stack : Stack D Pool) (x : Ptr × D) (xs ys : List (Ptr × D))
      → IsStack s stack (x ∷ xs) ys
      → length xs + 1 < 2 ^ 31
      → Returns (λ r s'. (r.0 ≡ x.0) × Loose s' r.1 xs ys r.0 x.1) (pop stack s)
  unfolding pop
  pop-pops {s} stack x xs ys is short = go (Chain-Top is.nodes)
    where
      go :
          Top s stack.top x xs
          → Returns (λ r s'. (r.0 ≡ x.0) × Loose s' r.1 xs ys r.0 x.1) (pop stack s)
      go (top q at here out rest) =
          let count : stack.curr_size < 2 ^ 31 = omega (arith, is.count, short) in
          let test : ((stack.curr_size == 0) || (stack.top == null)) ≡ false =
            ground (arith, is.count, here.nonnull) in
          let alone : StackNode D = record { below = null; bytes = x.1 } in
          let unused : has stack.top ys ≡ false = rw at is.apart.0 in
          rw (stack_empty-eq stack count, test, load-ok here, modify-ok here)
            (returns (
              at,
              record {
                is = record {
                  nodes = Chain-poke stack.top (some alone) rest out;
                  spare = Chain-poke stack.top (some alone) is.spare unused;
                  apart = is.apart.1;
                  count = omega (arith, is.count, short);
                  end = is.end;
                };
                here = Holds-poke_self here alone;
                off = out;
                unused = unused;
              },
            ))

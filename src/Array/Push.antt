-- ===== src/Array/Push.antt =====
-- `smp_array_push` on a valid array.
use mathlib.Core.Option
use native.Mathlib.Nat.{mul-le-mul_left, mul_comm}
use smpcil.Base.{
  ℕ, suc, ◌+◌, ◌*◌, ◌%◌, ◌<◌, ◌≡◌, refl, sym, ap, ◌∙◌, inl, inr, Option, some, none, List, [], ◌∷◌,
  ◌++◌, All-append, Ptr, Status, smp_ok, smp_failure, arith, length, length-append, replicate, take,
  uint_mod, leb, le→leb, true, false, ◌==◌, lt-or-ge, if◌then◌else◌, inc32, dec32,
}
use smpcil.PoolApi
use smpcil.PoolApi.{PoolApi, PoolLaws, IsChunk}
use smpcil.Array.{
  Array, Chunk, mul32, write_cell, realloc_at, index_realloc, new_block, expand_block, expand,
  push_at, push,
}
use smpcil.Array.Elements.{
  elems_of, elems_of-push, elems_of-block, AllApart-snoc, answer, last_of, append_nil,
}
use smpcil.Array.Index.{filled, read_cell-last, write_cell-filled, take-filled}
use smpcil.Array.Valid.{
  elems, Owned, IsValid, Owned-AllApart, Owned-moves, unit-pos, unit-le, elems-IsValid,
  IsValid-moves,
}

-- After `smp_array_index_realloc`, a cell is left for the next block.
abbrev Spare : {api : PoolApi} → Status → Array api → Type 0
Spare smp_failure a = Unit {0}
Spare smp_ok a = a.index_used < a.index_amt

record Grown {api : PoolApi} (laws : PoolLaws api) (a : Array api)
    (r : Status × Array api × api.World) : Type 0 where
  valid : IsValid laws r.1 r.2
  same : elems r.1 ≡ elems a
  bytes : r.1.elem_size ≡ a.elem_size
  full : r.1.curr_point ≡ r.1.unit_elem_amt
  small : r.1.index_used + 1 < uint_mod
  spare : Spare r.0 r.1

-- After `smp_array_expand`, the last block has room for an element.
abbrev Room : {api : PoolApi} → Status → Array api → Type 0
Room smp_failure a = Unit {0}
Room smp_ok a = a.curr_point < a.unit_elem_amt

record Expanded {api : PoolApi} (laws : PoolLaws api) (a : Array api)
    (r : Status × Array api × api.World) : Type 0 where
  valid : IsValid laws r.1 r.2
  same : elems r.1 ≡ elems a
  bytes : r.1.elem_size ≡ a.elem_size
  room : Room r.0 r.1

-- Where a cell is left, the write for a new block is in bounds.
index-grown :
    (p : Ptr) (ps : List Ptr) (rest : List (Option Ptr)) (fresh : Ptr)
    → 0 < length rest
    → (rest' : List (Option Ptr)) × (write_cell (filled (p ∷ ps) rest) (suc (length ps)) fresh
        ≡ some (filled (p ∷ ps ++ fresh ∷ []) rest'))
      × (length rest ≡ suc (length rest'))
index-grown p ps [] fresh pos = absurd (omega (arith, pos))
index-grown p ps (c ∷ rest) fresh pos = (rest, write_cell-filled (p ∷ ps) c rest fresh, refl)

module _ {api : PoolApi} (laws : PoolLaws api) where
  module _ (a : Array api) (w : api.World) (v : IsValid laws a w)
      (full : a.curr_point ≡ a.unit_elem_amt) (bound : a.index_amt + 4 < uint_mod) where
    realloc_at-Grown :
        (c : Chunk api)
        → a.index_used ≡ a.index_amt
        → laws.IsValid c.1 c.2
        → ((b : ℕ) → laws.InUse a.pool w b → laws.InUse c.1 c.2 b)
        → Grown laws a (realloc_at api a c)
    unfolding realloc_at
    realloc_at-Grown (none, pool, w') all ok keeps = record {
      valid = IsValid-moves laws a w pool w' v ok keeps;
      same = refl;
      bytes = refl;
      full = full;
      small = omega (arith, bound, all);
      spare = tt;
    }
    realloc_at-Grown (some _, pool, w') all ok keeps =
        let blocks = v.first ∷ v.others in
        let valid : IsValid laws
            (record a {
              pool = pool;
              index = take a.index_used a.index ++ replicate 4 none;
              index_amt = (a.index_amt + 4) % uint_mod;
            })
            w' =
          record {
            first = v.first;
            others = v.others;
            rest = replicate 4 none;
            index = rw (v.index, v.used) (take-filled blocks v.rest (replicate 4 none));
            used = v.used;
            amt = omega (arith, v.used, all, bound);
            fits = omega (arith, bound);
            room = v.room;
            positive = v.positive;
            small = v.small;
            pool = ok;
            owned = Owned-moves keeps (a.elem_size * a.unit_elem_amt) blocks v.owned;
            apart = v.apart;
          } in
        record {
          valid = valid;
          same = elems-IsValid laws _ w' valid ∙ sym (elems-IsValid laws a w v);
          bytes = refl;
          full = full;
          small = omega (arith, bound, all);
          spare = omega (arith, all, bound);
        }

    index_realloc-Grown : a.index_used ≡ a.index_amt → Grown laws a (index_realloc api a w)
    unfolding index_realloc
    index_realloc-Grown all =
        let n = 8 * ((a.index_used + 4) % uint_mod) in
        realloc_at-Grown (api.mpalloc n a.pool w) all (laws.mpalloc_valid n a.pool w v.pool)
          (laws.mpalloc_keeps n a.pool w v.pool)

    ready-Grown :
        Grown laws a (if a.index_used == a.index_amt then index_realloc api a w else (smp_ok, a, w))
    ready-Grown = elim (lt-or-ge a.index_used a.index_amt) [
      | inl l ↦
          let no : (a.index_used == a.index_amt) ≡ false = ground arith in
          let less : a.index_used + 1 < uint_mod = omega (arith, l, bound) in
          rw no
            (record { valid = v; same = refl; bytes = refl; full = full; small = less; spare = l })
      | inr g ↦
          let all : a.index_used ≡ a.index_amt = omega (arith, g, v.used, v.amt) in
          let yes : (a.index_used == a.index_amt) ≡ true = ground arith in
          rw yes (index_realloc-Grown all)
    ]

  module _ (a : Array api) (w : api.World) (v : IsValid laws a w)
      (full : a.curr_point ≡ a.unit_elem_amt) (small : a.index_used + 1 < uint_mod)
      (spare : a.index_used < a.index_amt) where
    new_block-Expanded :
        (c : Chunk api)
        → laws.IsValid c.1 c.2
        → ((b : ℕ) → laws.InUse a.pool w b → laws.InUse c.1 c.2 b)
        → PoolApi.Grants
            (laws.InUse a.pool w)
            (laws.InUse c.1 c.2)
            (a.elem_size * a.unit_elem_amt)
            c.0
        → (r : Status × Array api × api.World) × (new_block api a c ≡ some r) × Expanded laws a r
    unfolding new_block
    new_block-Expanded (none, pool, w') ok keeps grants = (
      (smp_failure, record a { pool = pool }, w'),
      refl,
      record {
        valid = IsValid-moves laws a w pool w' v ok keeps;
        same = refl;
        bytes = refl;
        room = tt;
      },
    )
    new_block-Expanded (some p, pool, w') ok keeps grants =
        let (rest, index, len) =
          index-grown v.first v.others v.rest p (omega (arith, spare, v.used, v.amt)) in
        let n = a.elem_size * a.unit_elem_amt in
        let blocks = v.first ∷ v.others in
        let last : dec32 (inc32 a.index_used) ≡ suc (length v.others) =
          omega (arith, v.used, small) in
        let valid : IsValid laws
            (record a {
              pool = pool;
              index_used = inc32 a.index_used;
              index = filled (blocks ++ p ∷ []) rest;
              curr_point = 0;
            })
            w' =
          record {
            first = v.first;
            others = v.others ++ p ∷ [];
            rest = rest;
            index = refl;
            used = omega (arith, length-append v.others (p ∷ []), v.used, small);
            amt = omega (arith, length-append v.others (p ∷ []), v.amt, len);
            fits = v.fits;
            room = omega arith;
            positive = v.positive;
            small = v.small;
            pool = ok;
            owned =
                All-append (Owned (laws.InUse pool w') n) blocks (p ∷ [])
                  (Owned-moves keeps n blocks v.owned)
                  (record { nonnull = grants.nonnull; used = grants.used }, tt);
            apart =
                AllApart-snoc n blocks p v.apart
                  (Owned-AllApart n blocks p v.positive v.owned grants);
          } in
        (
          (smp_ok, _, w'),
          rw (last, v.index, index) refl,
          record {
            valid = valid;
            same =
                elems-IsValid laws _ w' valid
                ∙ (elems_of-block a.elem_size a.unit_elem_amt v.first v.others p
                    ∙ (ap (λ n. elems_of a.elem_size a.unit_elem_amt n blocks) (sym full)
                        ∙ sym (elems-IsValid laws a w v)));
            bytes = refl;
            room = unit-pos a.elem_size a.unit_elem_amt v.positive;
          },
        )

    expand_block-Expanded :
        (r : Status × Array api × api.World) × (expand_block api (smp_ok, a, w) ≡ some r)
        × Expanded laws a r
    unfolding expand_block
    expand_block-Expanded =
        let small : mul32 a.elem_size a.unit_elem_amt ≡ a.elem_size * a.unit_elem_amt =
          omega (arith, v.small) in
        let n = a.elem_size * a.unit_elem_amt in
        rw small (
          new_block-Expanded (api.mpalloc n a.pool w) (laws.mpalloc_valid n a.pool w v.pool)
            (laws.mpalloc_keeps n a.pool w v.pool) (laws.mpalloc_grants n a.pool w v.pool))

  expand_block-Grown :
      (a : Array api) (r : Status × Array api × api.World)
      → Grown laws a r
      → (r' : Status × Array api × api.World) × (expand_block api r ≡ some r') × Expanded laws a r'
  unfolding expand_block
  expand_block-Grown a (smp_failure, b, w) g = (
    (smp_failure, b, w),
    refl,
    record { valid = g.valid; same = g.same; bytes = g.bytes; room = tt },
  )
  expand_block-Grown a (smp_ok, b, w) g =
      let (r, e, x) = expand_block-Expanded b w g.valid g.full g.small g.spare in
      (
        r,
        e,
        record {
          valid = x.valid;
          same = x.same ∙ g.same;
          bytes = x.bytes ∙ g.bytes;
          room = x.room;
        },
      )

  expand-Expanded :
      (a : Array api) (w : api.World)
      → IsValid laws a w
      → a.index_amt + 4 < uint_mod
      → (r : Status × Array api × api.World) × (expand api a w ≡ some r) × Expanded laws a r
  unfolding expand
  expand-Expanded a w v bound = elim (lt-or-ge a.curr_point a.unit_elem_amt) [
    | inl l ↦
        let no : leb a.unit_elem_amt a.curr_point ≡ false = ground arith in
        ((smp_ok, a, w), rw no refl, record { valid = v; same = refl; bytes = refl; room = l })
    | inr g ↦
        let full : a.curr_point ≡ a.unit_elem_amt = omega (arith, g, v.room) in
        let yes = le→leb a.unit_elem_amt a.curr_point g in
        rw yes (expand_block-Grown a _ (ready-Grown a w v full bound))
  ]

  push_at-appends :
      (a : Array api) (r : Status × Array api × api.World)
      → Expanded laws a r
      → (o : Option Ptr) × (a' : Array api) × (w' : api.World) × (push_at api r ≡ some (o, a', w'))
        × IsValid laws a' w'
        × (elems a' ≡ elems a ++ answer o)
        × (a'.elem_size ≡ a.elem_size)
  unfolding push_at
  push_at-appends a (smp_failure, b, w) x =
      (none, b, w, refl, x.valid, x.same ∙ sym (append_nil (elems a)), x.bytes)
  push_at-appends a (smp_ok, b, w) x =
      let v = x.valid in
      let last : dec32 b.index_used ≡ length v.others = omega (arith, v.used, v.amt, v.fits) in
      let read = read_cell-last v.first v.others v.rest in
      let next : inc32 b.curr_point ≡ suc b.curr_point =
        omega (arith, x.room, v.small, unit-le b.elem_size b.unit_elem_amt v.positive) in
      let start : mul32 b.curr_point b.elem_size ≡ b.elem_size * b.curr_point =
        omega
          (arith, v.small, mul_comm b.curr_point b.elem_size, mul-le-mul_left b.elem_size v.room) in
      let valid : IsValid laws (record b { curr_point = inc32 b.curr_point }) w = record {
        first = v.first;
        others = v.others;
        rest = v.rest;
        index = v.index;
        used = v.used;
        amt = v.amt;
        fits = v.fits;
        room = omega (arith, next, x.room);
        positive = v.positive;
        small = v.small;
        pool = v.pool;
        owned = v.owned;
        apart = v.apart;
      } in
      (
        some (last_of v.first v.others + b.elem_size * b.curr_point),
        record b { curr_point = inc32 b.curr_point },
        w,
        rw (last, v.index, read, start) refl,
        valid,
        elems-IsValid laws _ w valid
            ∙ (ap (λ n. elems_of b.elem_size b.unit_elem_amt n (v.first ∷ v.others)) next
                ∙ elems_of-push b.elem_size b.unit_elem_amt b.curr_point v.first v.others
                ∙ ap
                    (λ (xs : List Ptr).
                      xs ++ (last_of v.first v.others + b.elem_size * b.curr_point) ∷ [])
                    (sym (elems-IsValid laws b w v) ∙ x.same)),
        x.bytes,
      )

  pub push-sized :
      (a : Array api) (w : api.World)
      → IsValid laws a w
      → a.index_amt + 4 < uint_mod
      → (o : Option Ptr) × (a' : Array api) × (w' : api.World) × (push api a w ≡ some (o, a', w'))
        × IsValid laws a' w'
        × (elems a' ≡ elems a ++ answer o)
        × (a'.elem_size ≡ a.elem_size)
  unfolding push Option.bind
  push-sized a w v bound =
      let (r, e, x) = expand-Expanded a w v bound in rw e (push_at-appends a r x)

  -- On a valid array whose index can grow by four cells, `smp_array_push` stays within the index,
  -- and the array that it leaves is valid; its elements are those from before and, behind them, the
  -- address that it returns, or no other where it returns NULL.
  pub push-appends :
      (a : Array api) (w : api.World)
      → IsValid laws a w
      → a.index_amt + 4 < uint_mod
      → (o : Option Ptr) × (a' : Array api) × (w' : api.World) × (push api a w ≡ some (o, a', w'))
        × IsValid laws a' w'
        × (elems a' ≡ elems a ++ answer o)
  push-appends a w v bound =
      let (o, a', w', e, valid, same, _) = push-sized a w v bound in (o, a', w', e, valid, same)

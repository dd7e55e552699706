-- ===== src/PartList/Push.antt =====
-- `smp_list_push` on a valid list.
use native.Mathlib.Nat.{mul-le-mul_left}
use smpcil.Base.{
  ℕ, suc, ◌+◌, ◌*◌, ◌%◌, ◌<◌, ◌≡◌, refl, sym, ap, ◌∙◌, inl, inr, true, false, Option, some, none,
  List, [], ◌∷◌, ◌++◌, All-append, Ptr, arith, lt-or-ge, ◌==◌, inc32, size_mod,
}
use smpcil.PoolApi
use smpcil.PoolApi.{PoolApi, PoolLaws, IsChunk}
use smpcil.Array.Elements.{stride, stride-snoc, AllApart-snoc, answer, append_nil, append_assoc}
use smpcil.Array.Valid.{Owned, Owned-moves, Owned-AllApart, unit-pos}
use smpcil.PartList.{Part, PartList, Chunk, parts, push_elem, push_elems, push_part, list_push}
use smpcil.PartList.Valid.{elems_in, starts, IsValid}

elems_in-append :
    (e : ℕ) (xs ys : List Part) → elems_in e (xs ++ ys) ≡ elems_in e xs ++ elems_in e ys
elems_in-append e [] ys = refl
elems_in-append e (x ∷ xs) ys =
    ap (λ zs. stride e x.elems 0 x.elem_mnt ++ zs) (elems_in-append e xs ys)
    ∙ sym (append_assoc (stride e x.elems 0 x.elem_mnt) (elems_in e xs) (elems_in e ys))

starts-append : (xs ys : List Part) → starts (xs ++ ys) ≡ starts xs ++ starts ys
starts-append [] ys = refl
starts-append (x ∷ xs) ys = cc (starts-append xs ys)

-- One more element in the last part.
elems_in-more :
    (e : ℕ) (full : List Part) (p : Ptr) (n : ℕ)
    → elems_in e (full ++ record { elems = p; elem_mnt = suc n } ∷ [])
      ≡ elems_in e (full ++ record { elems = p; elem_mnt = n } ∷ []) ++ (p + e * n) ∷ []
elems_in-more e full p n =
    let old : Part = record { elems = p; elem_mnt = n } in
    let new : Part = record { elems = p; elem_mnt = suc n } in
    let same : 0 + n ≡ n = omega arith in
    let snoc : stride e p 0 (suc n) ≡ stride e p 0 n ++ (p + e * n) ∷ [] =
      rw same at (stride-snoc e p 0 n) in
    elems_in-append e full (new ∷ [])
    ∙ (ap (λ xs. elems_in e full ++ xs) (append_nil (stride e p 0 (suc n)) ∙ snoc)
        ∙ (sym (append_assoc (elems_in e full) (stride e p 0 n) ((p + e * n) ∷ []))
            ∙ ap (λ xs. xs ++ (p + e * n) ∷ [])
                (ap (λ xs. elems_in e full ++ xs) (sym (append_nil (stride e p 0 n)))
                  ∙ sym (elems_in-append e full (old ∷ [])))))

-- A list that a push leaves.
record Pushed {api : PoolApi} (laws : PoolLaws api) (list : PartList api)
    (r : Option Ptr × PartList api × api.World) : Type 0 where
  valid : IsValid laws r.1 r.2
  appended :
      elems_in r.1.elem_size (parts api r.1)
      ≡ elems_in list.elem_size (parts api list) ++ answer r.0

module _ {api : PoolApi} (laws : PoolLaws api) where
  IsValid-moves :
      (list : PartList api) (w : api.World) (pool : api.Pool) (w' : api.World)
      → IsValid laws list w
      → laws.IsValid pool w'
      → ((b : ℕ) → laws.InUse list.mpool w b → laws.InUse pool w' b)
      → IsValid laws (record list { mpool = pool }) w'
  IsValid-moves list w pool w' v ok keeps = record {
    room = v.room;
    short = v.short;
    positive = v.positive;
    small = v.small;
    pool = ok;
    owned =
        Owned-moves keeps (list.elem_size * list.part_elem_maxmnt) (starts (parts api list))
          v.owned;
    apart = v.apart;
  }

  push_elem-Pushed :
      (list : PartList api) (w : api.World)
      → IsValid laws list w
      → list.tail.elem_mnt < list.part_elem_maxmnt
      → Pushed laws list (push_elem api list w)
  unfolding push_elem
  push_elem-Pushed list w v lt =
      let next : inc32 list.tail.elem_mnt ≡ suc list.tail.elem_mnt = omega (arith, v.short, lt) in
      let e = list.elem_size in
      let n = list.tail.elem_mnt in
      let place : (e * n) % size_mod ≡ e * n = omega (arith, v.small, mul-le-mul_left e v.room) in
      let same : starts (list.full ++ record list.tail { elem_mnt = inc32 list.tail.elem_mnt } ∷ [])
          ≡ starts (parts api list) =
        starts-append list.full _ ∙ sym (starts-append list.full (list.tail ∷ [])) in
      record {
        valid = record {
          room = omega (arith, next, lt);
          short = v.short;
          positive = v.positive;
          small = v.small;
          pool = v.pool;
          owned = rw same v.owned;
          apart = rw same v.apart;
        };
        appended =
            ap
              (λ n.
                elems_in list.elem_size
                  (list.full ++ record { elems = list.tail.elems; elem_mnt = n } ∷ []))
              next
            ∙ rw place (elems_in-more e list.full list.tail.elems n);
      }

  push_elems-Pushed :
      (list : PartList api) (w : api.World)
      → IsValid laws list w
      → (c : Chunk api) → laws.IsValid c.1 c.2
      → ((b : ℕ) → laws.InUse list.mpool w b → laws.InUse c.1 c.2 b)
      → PoolApi.Grants
          (laws.InUse list.mpool w)
          (laws.InUse c.1 c.2)
          (list.elem_size * list.part_elem_maxmnt)
          c.0
      → Pushed laws list (push_elems api list c)
  unfolding push_elems
  push_elems-Pushed list w v (none, pool, w') ok keeps grants = record {
    valid = IsValid-moves list w pool w' v ok keeps;
    appended = sym (append_nil (elems_in list.elem_size (parts api list)));
  }
  push_elems-Pushed list w v (some p, pool, w') ok keeps grants =
      let n = list.elem_size * list.part_elem_maxmnt in
      let fresh : Part = record { elems = p; elem_mnt = 0 } in
      let grown : PartList api = record list {
        full = parts api list;
        tail = fresh;
        mpool = pool;
      } in
      let all = starts-append (parts api list) (fresh ∷ []) in
      let valid : IsValid laws grown w' = record {
        room = omega arith;
        short = v.short;
        positive = v.positive;
        small = v.small;
        pool = ok;
        owned = rw all (
            All-append (Owned (laws.InUse pool w') n) (starts (parts api list)) (p ∷ [])
              (Owned-moves keeps n (starts (parts api list)) v.owned)
              (record { nonnull = grants.nonnull; used = grants.used }, tt));
        apart = rw all (
            AllApart-snoc n (starts (parts api list)) p v.apart
              (Owned-AllApart n (starts (parts api list)) p v.positive v.owned grants));
      } in
      let pushed =
        push_elem-Pushed grown w' valid
          (unit-pos list.elem_size list.part_elem_maxmnt v.positive) in
      let same : elems_in list.elem_size (parts api grown)
          ≡ elems_in list.elem_size (parts api list) =
        elems_in-append list.elem_size (parts api list) (fresh ∷ []) ∙ append_nil _ in
      record {
        valid = pushed.valid;
        appended = pushed.appended ∙ ap (λ xs. xs ++ answer (push_elem api grown w').0) same;
      }

  push_part-Pushed :
      (list : PartList api) (w : api.World)
      → IsValid laws list w
      → (c : Chunk api) → laws.IsValid c.1 c.2
      → ((b : ℕ) → laws.InUse list.mpool w b → laws.InUse c.1 c.2 b)
      → Pushed laws list (push_part api list c)
  unfolding push_part
  push_part-Pushed list w v (none, pool, w') ok keeps = record {
    valid = IsValid-moves list w pool w' v ok keeps;
    appended = sym (append_nil (elems_in list.elem_size (parts api list)));
  }
  push_part-Pushed list w v (some part, pool, w') ok keeps =
      let n = list.elem_size * list.part_elem_maxmnt in
      let exact : n % size_mod ≡ n = omega (arith, v.small) in
      let moved = IsValid-moves list w pool w' v ok keeps in
      let pushed =
        push_elems-Pushed (record list { mpool = pool }) w' moved (api.mpalloc n pool w')
          (laws.mpalloc_valid n pool w' ok) (laws.mpalloc_keeps n pool w' ok)
          (laws.mpalloc_grants n pool w' ok) in
      rw exact (record { valid = pushed.valid; appended = pushed.appended })

  -- `smp_list_push` on a valid list leaves a valid list; its elements are those from before and,
  -- behind them, the address that it returns, or no other where it returns NULL.
  pub list_push-appends :
      (list : PartList api) (w : api.World)
      → IsValid laws list w
      → IsValid laws (list_push api list w).1 (list_push api list w).2
        × (elems_in (list_push api list w).1.elem_size (parts api (list_push api list w).1)
            ≡ elems_in list.elem_size (parts api list) ++ answer (list_push api list w).0)
  unfolding list_push
  list_push-appends list w v = elim (lt-or-ge list.tail.elem_mnt list.part_elem_maxmnt) [
    | inl l ↦
        let isnt : (list.tail.elem_mnt == list.part_elem_maxmnt) ≡ false = ground (arith, l) in
        let pushed = push_elem-Pushed list w v l in rw isnt (pushed.valid, pushed.appended)
    | inr g ↦
        let is : (list.tail.elem_mnt == list.part_elem_maxmnt) ≡ true = ground (arith, g, v.room) in
        let pushed =
          push_part-Pushed list w v (api.mpalloc 24 list.mpool w)
            (laws.mpalloc_valid 24 list.mpool w v.pool)
            (laws.mpalloc_keeps 24 list.mpool w v.pool) in
        rw is (pushed.valid, pushed.appended)
  ]

-- ===== src/Pool.antt =====
-- pool.c: a bounded pool of objects that are allocated on demand and kept for reuse.
pub mod Refines
pub mod Owners
mod Examples
use bigblackhardware.Base.{
  ℕ, zero, suc, ◌+◌, ◌-◌, Bool, true, false, ◌&&◌, not, Option, none, some, List, [], ◌∷◌, ◌==◌,
  if◌then◌else◌, ◌>>=◌, ℤ, pos, negsuc, u32, get_elem?, write?,
}

-- An object is its address; `M` is the memory that a constructor writes to. `data` is the array of
-- `max_pool_size` pointers. The fields wr_ptr and rd_ptr are never read or written, and the size of
-- an item only goes to the allocator.
pub record Pool (M : Type 0) : Type 0 where
  pub obj_constructor : Option (ℕ → M → M)
  pub slots : List ℕ
  pub pool_size : ℕ
  pub free_items : ℕ
  pub max_pool_size : ℕ

-- `item` is what is stored through the pointer that the caller passes.
pub record Got (M : Type 0) : Type 0 where
  pub status : ℤ
  pub item : Option ℕ
  pub pool : Pool M
  pub memory : M

module _ {M : Type 0} where
  -- `slots` is the array that the allocator returns.
  unfoldable pub pool_create : Option (ℕ → M → M) → List ℕ → ℕ → Pool M
  pool_create constructor slots max_pool_size = record {
    obj_constructor = constructor;
    slots = slots;
    pool_size = 0;
    free_items = 0;
    max_pool_size = max_pool_size;
  }

  abbrev pub construct : Option (ℕ → M → M) → ℕ → M → M
  construct none obj m = m
  construct (some f) obj m = f obj m

  -- `fresh` is what the allocator returns, and `dest` says whether the pointer to the result is
  -- valid. Writing through an invalid one, or reading outside of the array, is `none`.
  unfoldable pub pool_get : (fresh : ℕ) (dest : Bool) → Pool M → M → Option (Got M)
  pool_get fresh dest p m =
      if p.free_items == 0 && p.pool_size == p.max_pool_size
      then some (record { status = negsuc 0; item = none; pool = p; memory = m })
      else if not dest
      then none
      else if p.free_items == 0
      then some (record {
        status = pos 0;
        item = some fresh;
        pool = record p { pool_size = u32 (p.pool_size + 1) };
        memory = construct p.obj_constructor fresh m;
      })
      else do
        obj ← get_elem? p.slots (p.free_items - 1)
        some (record {
          status = pos 0;
          item = some obj;
          pool = record p { free_items = p.free_items - 1 };
          memory = m;
        })

  unfoldable pub pool_release : ℕ → Pool M → Option (ℤ × Pool M)
  pool_release obj p = if p.free_items == p.pool_size then some (negsuc 0, p) else do
    slots ← write? p.slots p.free_items obj
    some (pos 0, record p { slots = slots; free_items = u32 (p.free_items + 1) })

  -- The loop of pool_delete passes NULL where pool_get stores the object.
  delete_loop : ℕ → ℕ → Pool M → M → Option (Pool M)
  delete_loop fresh zero p m = some p
  delete_loop fresh (suc n) p m = do
    got ← pool_get fresh false p m
    delete_loop fresh n got.pool got.memory

  unfoldable pub pool_delete : ℕ → Pool M → M → Option (ℤ × Pool M)
  unfolding delete_loop
  pool_delete fresh p m =
      if not (p.free_items == p.pool_size)
      then some (negsuc 0, p)
      else do p' ← delete_loop fresh p.pool_size p m; some (pos 0, p')

-- ===== src/UniqueKeys.antt =====
-- The `object_pairs_hook` of both JSON readers, `_unique_object` of gateway.py and of oauth.py, which
-- differ only in the exception: no object may name a key twice, at any depth.
pub mod Laws
use amazon_echo_home_voice.Prelude.{String, Bool, not}
use amazon_echo_home_voice.Python.{
  Json, null, bool, num, str, arr, obj, Items, nil, cons, Fields, end, field, find, has, assign,
  Result, ok, raised, Exn, ensure, ◌>>=◌, ◌>>◌,
}

module _ (duplicate : Exn) where
  -- The loop: `result[key] = value` unless the key is there.
  unfoldable pub collect : Fields → Fields → Result Fields
  collect end result = ok result
  collect (field key value pairs) result =
      let rest = collect pairs (assign key value result) in
      ensure (not (has key result)) duplicate >>= λ _. rest

  unfoldable pub unique_object : Fields → Result Fields
  unique_object pairs = collect pairs end

-- json.loads calls the hook on the pairs of every object, those of inner objects first.
module _ (hook : Fields → Result Fields) where
  unfoldable mutual
    pub with_hook : Json → Result Json
    with_hook (arr vs) = with_hook_items vs >>= λ ws. ok (arr ws)
    with_hook (obj fs) = with_hook_fields fs >>= λ pairs. hook pairs >>= λ result. ok (obj result)
    with_hook v = ok v

    pub with_hook_items : Items → Result Items
    with_hook_items nil = ok nil
    with_hook_items (cons v vs) = with_hook v >>= λ w. with_hook_items vs >>= λ ws. ok (cons w ws)

    pub with_hook_fields : Fields → Result Fields
    with_hook_fields end = ok end
    with_hook_fields (field k v fs) =
        with_hook v >>= λ w. with_hook_fields fs >>= λ gs. ok (field k w gs)

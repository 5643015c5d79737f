-- ===== src/Examples/Buses.antt =====
-- The IPA driver as a client of the bus shim, with a framework that has both paths.
use postmarketos_x00td_cellu.Common.{
  ℕ, suc, ◌*◌, ◌+◌, ◌≤◌, ◌<◌, ◌≡◌, ◌≢◌, refl, true, none, some, [], ◌∷◌, length, get_elem?, arith,
}
use postmarketos_x00td_cellu.Common.Int.{pos, einval}
use postmarketos_x00td_cellu.Bus.{
  Handle, of_icc_get, set_bw, Framework, Compat, default_pdata, nominal_vectors, no_handle,
  bps_to_kbps, register_client, unregister_client, update_request, icc_name, find_path, slot_of,
}
use postmarketos_x00td_cellu.Bus.Rounding.{bps_to_kbps_bounds}
use postmarketos_x00td_cellu.Bus.Clients.{IsPdata, IsCompat, free_table-IsCompat}
use postmarketos_x00td_cellu.Bus.Registered.{Registered, register_client-Registered}
use postmarketos_x00td_cellu.Bus.Votes.{
  IsClient, votes, answers, first_error, made, update_request-votes, update_request-negative,
}
use postmarketos_x00td_cellu.Bus.Runs.{
  register, unregister, update, run, run-IsCompat, unregister_client-update,
}

abbrev framework : Framework
framework = record {
  icc_get = λ calls name. some (some (length calls + 1));
  icc_set_bw = λ calls p ab ib. pos 0;
}

abbrev at_boot : Compat
at_boot = record {
  device = some 7;
  handles = no_handle ∷ no_handle ∷ no_handle ∷ no_handle ∷ [];
  calls = [];
}

abbrev client : Handle
client = record {
  pdata = some default_pdata;
  paths =
      record { src = 90; dst = 512; path = some 1 }
      ∷ record { src = 90; dst = 513; path = some 2 }
      ∷ [];
  in_use = true;
}

abbrev registered : Compat
registered = record {
  device = some 7;
  handles = client ∷ no_handle ∷ no_handle ∷ no_handle ∷ [];
  calls = of_icc_get "ipa-imem" ∷ of_icc_get "ipa-mem" ∷ [];
}

registers : register_client framework (some default_pdata) at_boot ≡ some (1, registered)
unfolding register_client icc_name find_path
registers = refl

-- The nominal use case.
votes_nominal :
    update_request framework 1 1 registered
    ≡ some (
      pos 0,
      record registered {
        calls = set_bw (some 2) 97657 1269532 ∷ set_bw (some 1) 97657 1269532 ∷ registered.calls;
      },
    )
unfolding update_request slot_of find_path bps_to_kbps
votes_nominal = refl

default_pdata-IsPdata : IsPdata default_pdata
default_pdata-IsPdata = record {
  table = _;
  count = 2;
  is_table = refl;
  is_count = refl;
  positive = omega arith;
  fits = omega arith;
  in_int = omega arith;
  vectors_fit = omega arith;
}

at_boot-IsCompat : IsCompat at_boot
at_boot-IsCompat = free_table-IsCompat (some 7) []

is_client : IsClient registered 1 client
is_client = record { positive = omega arith; bounded = omega arith; entry = refl; used = refl }

bps_to_kbps_bounds_example :
    (1300000000 ≤ bps_to_kbps 1300000000 * 1024)
    × (bps_to_kbps 1300000000 * 1024 < 1300000000 + 1024)
bps_to_kbps_bounds_example = bps_to_kbps_bounds 1300000000 (omega arith)

register_client-Registered_example :
    (n : ℕ) × (s' : Compat) × (register_client framework (some default_pdata) at_boot
      ≡ some (n, s'))
    × Registered framework default_pdata at_boot n s'
register_client-Registered_example =
    register_client-Registered framework default_pdata default_pdata-IsPdata at_boot
      at_boot-IsCompat

update_request-votes_example :
    let cs = votes nominal_vectors client.paths in
    update_request framework 1 1 registered
    ≡ some (
      first_error (answers framework cs registered.calls),
      record registered { calls = made cs registered.calls },
    )
update_request-votes_example =
    update_request-votes framework registered 1 client is_client default_pdata refl _
      (record { num_paths = 2; vectors = nominal_vectors }) 2 1 refl refl (omega arith)
      (omega arith) refl (omega arith)

update_request-negative_example : update_request framework 1 2147483648 registered ≡ none
update_request-negative_example =
    update_request-negative framework registered 1 client is_client default_pdata refl _ 2
      2147483648 refl refl (omega arith) (omega arith)

unregister_client-update_example :
    (s' : Compat) × (unregister_client 1 registered ≡ some s')
    × (s'.calls ≡ made (set_bw (some 1) 0 0 ∷ set_bw (some 2) 0 0 ∷ []) registered.calls)
    × (get_elem? s'.handles 0 ≡ some no_handle)
    × ((j : ℕ) → 1 ≢ suc j → get_elem? s'.handles j ≡ get_elem? registered.handles j)
    × (update_request framework 1 1 s' ≡ some (einval, s'))
unregister_client-update_example =
    unregister_client-update framework registered 1 1 client is_client

run-IsCompat_example :
    (s' : Compat) × (run framework
        (register default_pdata
          ∷ update 1 1
          ∷ update 3 9
          ∷ unregister 1
          ∷ register default_pdata
          ∷ [])
        at_boot
      ≡ some s')
    × IsCompat s'
run-IsCompat_example =
    run-IsCompat framework
      (register default_pdata
        ∷ update 1 1
        ∷ update 3 9
        ∷ unregister 1
        ∷ register default_pdata
        ∷ [])
      at_boot
      (default_pdata-IsPdata, (omega arith, (omega arith, (tt, (default_pdata-IsPdata, tt)))))
      at_boot-IsCompat

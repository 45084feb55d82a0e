-- ===== src/Uid/Tests.antt =====
-- The identifiers of src/shared/Utils.cpp on an address of the container network.
use async_rpc_fbthrift.Common.{
  Text, text, ◌++◌, [], ◌∷◌, some, ℕ, ◌+◌, ◌/◌, ◌%◌, ◌^◌, ◌≡◌, ◌↔◌, refl, false, arith, i64_of_u64,
  u64_of_i64,
}
use async_rpc_fbthrift.Rpc.{value}
use async_rpc_fbthrift.Stats.Csv.{decimal, digits_before}
use async_rpc_fbthrift.Uid.Host.{
  exec, host_local_uid, exec_loop, fgets, c_string, starts_with_digit,
}
use async_rpc_fbthrift.Uid.Scan.{dotted, IsAddress, host_local_uid-dotted, host_local_uid-no_number}
use async_rpc_fbthrift.Uid.Make.{Address, local_uid, generate_local_uid, get_query_uid}
use async_rpc_fbthrift.Uid.Laws.{get_query_uid-fields, generate_local_uid_iff}

abbrev container : Address
container = record { is_3 = 172; is_2 = 18; is_1 = 0; is_0 = 5 }

abbrev other_network : Address
other_network = record { is_3 = 172; is_2 = 19; is_1 = 7; is_0 = 5 }

-- The identifier in the repository's recorded runs, for a random number of 1.
container_uid : generate_local_uid false 0 container 1 ≡ 12442509008261087232
unfolding generate_local_uid
container_uid = refl

get_query_uid-fields_example :
    (get_query_uid (generate_local_uid false 0 container 9) 7
      ≡ generate_local_uid false 0 container 9 + 7)
    × (get_query_uid (generate_local_uid false 0 container 9) 7 / 2 ^ 28
        ≡ generate_local_uid false 0 container 9 / 2 ^ 28)
    × (get_query_uid (generate_local_uid false 0 container 9) 7 % 2 ^ 28 ≡ 7)
    × (u64_of_i64 (i64_of_u64 (get_query_uid (generate_local_uid false 0 container 9) 7))
        ≡ get_query_uid (generate_local_uid false 0 container 9) 7)
get_query_uid-fields_example = get_query_uid-fields false 0 container 9 7

generate_local_uid_iff_example :
    (generate_local_uid false 0 container 9 ≡ generate_local_uid false 0 other_network 25)
    ↔ (◌≡◌ {A = ℕ} 172 172 × ◌≡◌ {A = ℕ} 5 5 × (9 % 16 ≡ 25 % 16))
generate_local_uid_iff_example =
    generate_local_uid_iff 0 0 container other_network 9 25 (omega arith) (omega arith)
      (omega arith) (omega arith)

-- What `hostname -i` prints in a container.
abbrev behind_address : Text
behind_address = b' ' ∷ b'\n' ∷ []

printed : dotted container behind_address ≡ text "172.18.0.5 " ++ (b'\n' ∷ [])
unfolding decimal digits_before
printed = refl

-- A zero byte hides what follows it in its line.
exec_cuts :
    exec (some (text "ab" ++ (0 ∷ (text "cd" ++ (b'\n' ∷ text "ef"))))) ≡ some (value (text "abef"))
unfolding exec exec_loop fgets c_string
exec_cuts = refl

container-IsAddress : IsAddress container
container-IsAddress = record {
  is_3 = omega arith;
  is_2 = omega arith;
  is_1 = omega arith;
  is_0 = omega arith;
}

host_local_uid-dotted_example :
    host_local_uid (some (dotted container behind_address)) 9
    ≡ some (value (generate_local_uid false 0 container 9))
unfolding decimal digits_before starts_with_digit
host_local_uid-dotted_example =
    host_local_uid-dotted container behind_address 9 container-IsAddress refl refl

host_local_uid-no_number_example :
    host_local_uid (some (text "::1")) 9 ≡ some (value (local_uid 0 (9 % 16)))
host_local_uid-no_number_example =
    host_local_uid-no_number b':' (text ":1") 9 refl refl (λ h. absurd (omega arith))
      (λ h. absurd (omega arith)) refl

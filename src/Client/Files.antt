-- ===== src/Client/Files.antt =====
-- The names that example/ex.c works with: its servers in groups, and the files that it copies to them.
use libpssh.Prelude.{ℕ, ◌+◌, ◌*◌, ◌/◌, ◌%◌, ◌==◌, ◌||◌, List, [], ◌∷◌, if◌then◌else◌}

-- "/home/rushba/tmp/id_dsa.pub"
abbrev pub batch_public_key : List ℕ
batch_public_key =
    47 ∷ 104 ∷ 111 ∷ 109 ∷ 101 ∷ 47 ∷ 114 ∷ 117 ∷ 115 ∷ 104 ∷ 98 ∷ 97 ∷ 47 ∷ 116 ∷ 109 ∷ 112 ∷ 47
    ∷ 105 ∷ 100 ∷ 95 ∷ 100 ∷ 115 ∷ 97 ∷ 46 ∷ 112 ∷ 117 ∷ 98 ∷ []

-- "/etc"
abbrev pub etc : List ℕ
etc = 47 ∷ 101 ∷ 116 ∷ 99 ∷ []

-- "/etc/profile"
abbrev pub etc_profile : List ℕ
etc_profile = 47 ∷ 101 ∷ 116 ∷ 99 ∷ 47 ∷ 112 ∷ 114 ∷ 111 ∷ 102 ∷ 105 ∷ 108 ∷ 101 ∷ []

-- "/etc/passwd"
abbrev pub etc_passwd : List ℕ
etc_passwd = 47 ∷ 101 ∷ 116 ∷ 99 ∷ 47 ∷ 112 ∷ 97 ∷ 115 ∷ 115 ∷ 119 ∷ 100 ∷ []

-- "/etc/hosts"
abbrev pub etc_hosts : List ℕ
etc_hosts = 47 ∷ 101 ∷ 116 ∷ 99 ∷ 47 ∷ 104 ∷ 111 ∷ 115 ∷ 116 ∷ 115 ∷ []

-- "/tmp/profile"
abbrev pub tmp_profile : List ℕ
tmp_profile = 47 ∷ 116 ∷ 109 ∷ 112 ∷ 47 ∷ 112 ∷ 114 ∷ 111 ∷ 102 ∷ 105 ∷ 108 ∷ 101 ∷ []

-- "/tmp/passwd"
abbrev pub tmp_passwd : List ℕ
tmp_passwd = 47 ∷ 116 ∷ 109 ∷ 112 ∷ 47 ∷ 112 ∷ 97 ∷ 115 ∷ 115 ∷ 119 ∷ 100 ∷ []

-- "/tmp/hosts"
abbrev pub tmp_hosts : List ℕ
tmp_hosts = 47 ∷ 116 ∷ 109 ∷ 112 ∷ 47 ∷ 104 ∷ 111 ∷ 115 ∷ 116 ∷ 115 ∷ []

-- "a", "b", "c" and "s"
abbrev pub arg_a : List ℕ
arg_a = 97 ∷ []

abbrev pub arg_b : List ℕ
arg_b = 98 ∷ []

abbrev pub arg_c : List ℕ
arg_c = 99 ∷ []

abbrev pub arg_s : List ℕ
arg_s = 115 ∷ []

-- TIMEOUT
abbrev pub time_limit : ℕ
time_limit = 15

-- for (j = 2; j < SRV_GROUP_CNT; j++)
abbrev pub groups : List ℕ
groups = 2 ∷ 3 ∷ 4 ∷ 5 ∷ 6 ∷ 7 ∷ 8 ∷ 9 ∷ []

-- for (i = 1; i < SRV_IN_GROUP; i++)
abbrev pub members : List ℕ
members = 1 ∷ 2 ∷ 3 ∷ 4 ∷ 5 ∷ 6 ∷ 7 ∷ 8 ∷ 9 ∷ []

-- sprintf(name, "www%d.mlan", j * SRV_IN_GROUP + i), for a number of two digits.
unfoldable pub server_name : ℕ → ℕ → List ℕ
server_name j i =
    let n = j * 10 + i in
    119 ∷ 119 ∷ 119 ∷ (48 + n / 10) ∷ (48 + n % 10) ∷ 46 ∷ 109 ∷ 108 ∷ 97 ∷ 110 ∷ []

-- The files that are copied to a member of a group, and where to.
unfoldable pub copies_for : ℕ → List (List ℕ × List ℕ)
copies_for i =
    if i == 2 || i == 4
    then (etc, tmp_profile) ∷ []
    else (etc, tmp_profile)
      ∷ (etc_profile, tmp_profile)
      ∷ (etc_passwd, tmp_passwd)
      ∷ (etc_hosts, tmp_hosts)
      ∷ []

-- ===== src/Inotify/Paths.antt =====
-- Pathnames of a subtree in inotify_dtree.c, and the renaming of the cached ones.
pub mod Renaming
use my_notes.Common.{
  ℕ, ◌-◌, Bool, true, ◌&&◌, [], ◌∷◌, ◌++◌, map, Bytes, ◌==◌, if◌then◌else◌, length, take, drop,
  starts_with,
}
use my_notes.Inotify.Cache.{Cache, Watch, path_max}

-- `NAME_MAX`
abbrev pub name_max : ℕ
name_max = 255

-- `snprintf(buf, size, "%s/%s", prefix, name)`
abbrev pub join_path : ℕ → Bytes → Bytes → Bytes
join_path size prefix name = take (size - 1) (prefix ++ (b'/' ∷ name))

-- `p[0] == '/' || p[0] == '\0'`
abbrev pub at_component_end : Bytes → Bool
at_component_end [] = true
at_component_end (b ∷ _) = b == b'/'

-- `strncmp(dir, path, len) == 0 && (path[len] == '/' || path[len] == '\0')`
unfoldable pub in_subtree : Bytes → Bytes → Bool
in_subtree dir path = starts_with dir path && at_component_end (drop (length dir) path)

-- One round of the loop of `rewriteCachedPaths`; `snprintf` cuts at `PATH_MAX - 1`.
pub rewrite_path : Bytes → Bytes → Watch → Watch
rewrite_path full_path new_prefix w =
    if in_subtree full_path w.path
    then record w { path = take (path_max - 1) (new_prefix ++ drop (length full_path) w.path) }
    else w

pub rewrite_cached_paths : Cache → Bytes → Bytes → Bytes → Bytes → Cache
rewrite_cached_paths c old_path_prefix old_name new_path_prefix new_name =
    map
      (rewrite_path (join_path path_max old_path_prefix old_name)
        (join_path path_max new_path_prefix new_name))
      c

-- ===== src/Sysinfo/Tests.antt =====
-- An os-release file with quotes, and a small meminfo file.
use abora_framework.Common.{◌≡◌, refl, ok, some, codes}
use abora_framework.Common.Decimal.{parse_uint}
use abora_framework.Sysinfo.{
  from_fields, memory_of, meminfo_fields, parse_meminfo, unescape, unquote, parse_os_release,
}
use abora_framework.Sysinfo.Quotes.{quote, unquote-quote}

unquote-quote_example : unquote (quote (codes "Abora \"OS\" \\ 1")) ≡ codes "Abora \"OS\" \\ 1"
unquote-quote_example = unquote-quote (codes "Abora \"OS\" \\ 1")

meminfo_read :
    parse_meminfo (codes "MemTotal:  8 kB\nMemFree:   2 kB\nMemAvailable: 5 kB\n")
    ≡ ok (record {
      total_bytes = 8192;
      available_bytes = 5120;
      free_bytes = 2048;
      used_bytes = 3072;
      swap_total_bytes = 0;
      swap_used_bytes = 0;
    })
unfolding parse_meminfo meminfo_fields memory_of from_fields parse_uint
meminfo_read = refl

name_read :
    (parse_os_release (codes "# os\nID=abora\nNAME='Abora OS'\n")).name ≡ some (codes "Abora OS")
unfolding parse_os_release unquote unescape
name_read = refl

-- ===== src/Inventory/Prefixes.antt =====
-- `_OUI_PREFIXES` of utils/network.py.
use sentinel_pi.Prelude.{String, [], ◌∷◌}
use sentinel_pi.Prelude.Dict.{Dict}

unfoldable pub oui_prefixes : Dict String String
oui_prefixes =
    ("00:50:56", "VMware")
    ∷ ("08:00:27", "VirtualBox")
    ∷ ("52:54:00", "QEMU/KVM")
    ∷ ("b8:27:eb", "Raspberry Pi Foundation")
    ∷ ("dc:a6:32", "Raspberry Pi Foundation")
    ∷ ("e4:5f:01", "Raspberry Pi Foundation")
    ∷ ("d8:3a:dd", "Raspberry Pi Foundation")
    ∷ ("28:cd:c1", "Apple")
    ∷ ("a4:c3:f0", "Apple")
    ∷ ("3c:22:fb", "Apple")
    ∷ ("f0:18:98", "Apple")
    ∷ ("70:56:81", "Apple")
    ∷ ("60:f8:1d", "Google")
    ∷ ("f4:f5:d8", "Google")
    ∷ ("54:60:09", "Google")
    ∷ ("00:1a:11", "Google")
    ∷ ("30:fd:38", "Amazon")
    ∷ ("f0:81:73", "Amazon")
    ∷ ("74:c2:46", "Amazon")
    ∷ ("18:74:2e", "Amazon")
    ∷ ("cc:f9:54", "Amazon")
    ∷ ("00:17:f2", "Apple Airport")
    ∷ ("bc:30:d9", "Netgear")
    ∷ ("a0:04:60", "Netgear")
    ∷ ("c0:ff:d4", "TP-Link")
    ∷ ("50:c7:bf", "TP-Link")
    ∷ ("b0:be:76", "TP-Link")
    ∷ ("14:cc:20", "TP-Link")
    ∷ ("10:fe:ed", "TP-Link")
    ∷ ("00:0d:0f", "Cisco Linksys")
    ∷ ("00:25:9c", "Cisco")
    ∷ ("00:1e:13", "Dell")
    ∷ ("f8:db:88", "Dell")
    ∷ ("14:18:77", "Dell")
    ∷ []
